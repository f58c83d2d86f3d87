-- ===== src/SemDiff/Header.antt =====
-- The headers of Go functions and methods, for goEnclosingNameFromComment of semdiff.go.
use patchbin.Base.{
  ℕ, zero, suc, ◌≤◌, ◌-◌, Str, Bool, true, false, ◌++◌, Option, none, some, List, [], ◌∷◌, codes,
  length, length-append, append_assoc, take, All, ◌≡◌, refl, ap, ◌∙◌, arith, not, ltb, ◌==◌,
}
use patchbin.Base.Regex.{
  Regex, Next, run, rounds, submatches, is_letter, is_letter_or_digit, is_blank, identifier, blanks,
}
use patchbin.SemDiff.Patterns.{go_func, byte, but}
use patchbin.SemDiff.Comment.{last_of, name_in-last_of, found_or, go_enclosing_name}

-- A star over bytes takes all that it can, if what follows then succeeds.
rounds-greedy :
    (p : ℕ → Bool) (n : ℕ) (caught : List Str) (xs : Str) (c : ℕ) (s : Str) (next : Next)
    (found : List Str)
    → length (xs ++ c ∷ s) ≤ n
    → All (λ x. p x ≡ true) xs
    → p c ≡ false
    → next caught (c ∷ s) ≡ some found
    → rounds (run (Regex.one p)) n caught (xs ++ c ∷ s) next ≡ some found
unfolding rounds run
rounds-greedy p zero caught [] c s next found le h stop end = absurd (omega arith)
rounds-greedy p zero caught (x ∷ xs) c s next found le h stop end = absurd (omega arith)
rounds-greedy p (suc n) caught [] c s next found le h stop end = rw stop end
rounds-greedy p (suc n) caught (x ∷ xs) c s next found le (px, h) stop end =
    let less : ltb (length (xs ++ c ∷ s)) (suc (length (xs ++ c ∷ s))) ≡ true = ground arith in
    rw (px, less, rounds-greedy p n caught xs c s next found (omega arith) h stop end) refl

module _ (p : ℕ → Bool) (caught : List Str) (c : ℕ) (s : Str) (next : Next) (found : List Str) where
  one-takes :
      p c ≡ true → next caught s ≡ some found → run (Regex.one p) caught (c ∷ s) next ≡ some found
  unfolding run
  one-takes e h = rw e h

  many-takes :
      (xs : Str)
      → All (λ x. p x ≡ true) xs
      → p c ≡ false
      → next caught (c ∷ s) ≡ some found
      → run (Regex.many (Regex.one p)) caught (xs ++ c ∷ s) next ≡ some found
  unfolding run
  many-takes xs h stop end =
      rounds-greedy p (length (xs ++ c ∷ s)) caught xs c s next found (omega arith) h stop end

pub take-front : (xs ys : Str) → take (length (xs ++ ys) - length ys) (xs ++ ys) ≡ xs
take-front [] ys = ground arith
take-front (x ∷ xs) ys =
    let count : length (x ∷ xs ++ ys) - length ys ≡ suc (length (xs ++ ys) - length ys) =
      omega (arith, length-append xs ys) in
    rw (count, take-front xs ys) refl

abbrev end : Next
end caught rest = some caught

abbrev tail : Regex
tail = Regex.seq (Regex.group identifier) (Regex.seq blanks (byte b'('))

module _ (r t : Regex) (caught : List Str) (s : Str) (next : Next) (found : List Str) where
  alt-first : run r caught s next ≡ some found → run (Regex.alt r t) caught s next ≡ some found
  unfolding run
  alt-first h = rw h refl

  alt-second :
      run r caught s next ≡ none
      → run t caught s next ≡ some found
      → run (Regex.alt r t) caught s next ≡ some found
  unfolding run
  alt-second h k = rw h k

one-fails :
    (p : ℕ → Bool) (caught : List Str) (c : ℕ) (s : Str) (next : Next)
    → p c ≡ false
    → run (Regex.one p) caught (c ∷ s) next ≡ none
unfolding run
one-fails p caught c s next h = rw h refl

module _ (c : ℕ) (name rest : Str) (letter : is_letter c ≡ true)
    (h : All (λ d. is_letter_or_digit d ≡ true) name) where
  abbrev text : Str
  text = (c ∷ name) ++ b'(' ∷ rest

  abbrev after : Str
  after = b'(' ∷ rest

  -- The name in front of the parenthesis is caught.
  tail-name : run tail [] text end ≡ some ((c ∷ name) ∷ [])
  unfolding run
  tail-name =
      let behind_blanks : Next = λ l s. run (byte b'(') l s end in
      let behind_name : Next =
        λ l s. run blanks (take (length text - length s) text ∷ l) s behind_blanks in
      let behind_letter : Next =
        λ l s. run (Regex.many (Regex.one is_letter_or_digit)) l s behind_name in
      let caught = take (length text - length after) text ∷ [] in
      let found = (c ∷ name) ∷ [] in
      one-takes is_letter [] c (name ++ after) behind_letter found letter (
        many-takes is_letter_or_digit [] b'(' rest behind_name found name h refl (
          many-takes is_blank caught b'(' rest behind_blanks found [] tt refl (
            one-takes (λ d. d == b'(') caught b'(' rest end found refl
              (ap (λ n. some (n ∷ [])) (take-front (c ∷ name) after)))))

  -- Behind the receiver
  abbrev from_name : Next
  from_name l s = run tail l s end

  not_blank : is_blank c ≡ false
  not_blank = ground arith

  no_paren : (c == b'(') ≡ false
  no_paren = ground arith

  -- The group of the receiver
  abbrev receiver : Regex
  receiver =
      Regex.seq (byte b'(') (Regex.seq (Regex.many (but b')')) (Regex.seq (byte b')') blanks))

  receiver-takes :
      (r : Str)
      → All (λ d. not (d == b')') ≡ true) r
      → run receiver [] (b'(' ∷ r ++ b')' ∷ 32 ∷ text) from_name ≡ some ((c ∷ name) ∷ [])
  unfolding run
  receiver-takes r closed =
      let found = (c ∷ name) ∷ [] in
      let behind_paren : Next = λ l s. run blanks l s from_name in
      let behind_type : Next = λ l s. run (byte b')') l s behind_paren in
      let behind_open : Next = λ l s. run (Regex.many (but b')')) l s behind_type in
      one-takes (λ d. d == b'(') [] b'(' (r ++ b')' ∷ 32 ∷ text) behind_open found refl
        (many-takes (λ d. not (d == b')')) [] b')' (32 ∷ text) behind_type found r closed refl
          (one-takes (λ d. d == b')') [] b')' (32 ∷ text) behind_paren found refl
            (many-takes is_blank [] c (name ++ after) from_name found (32 ∷ []) (refl, tt) not_blank
              tail-name)))

  abbrev from_receiver : Next
  from_receiver l s = run (Regex.alt receiver Regex.nothing) l s from_name

  without_receiver : from_receiver [] text ≡ some ((c ∷ name) ∷ [])
  unfolding run
  without_receiver =
      alt-second receiver Regex.nothing [] text from_name ((c ∷ name) ∷ [])
        (one-fails (λ d. d == b'(') [] c (name ++ after)
          (λ l s.
            run (Regex.seq (Regex.many (but b')')) (Regex.seq (byte b')') blanks)) l s from_name)
          no_paren)
        tail-name

  with_receiver :
      (r : Str)
      → All (λ d. not (d == b')') ≡ true) r
      → from_receiver [] (b'(' ∷ r ++ b')' ∷ 32 ∷ text) ≡ some ((c ∷ name) ∷ [])
  unfolding run
  with_receiver r closed =
      alt-first receiver Regex.nothing [] (b'(' ∷ r ++ b')' ∷ 32 ∷ text) from_name ((c ∷ name) ∷ [])
        (receiver-takes r closed)

  submatches-func :
      (d : ℕ) (v : Str)
      → is_blank d ≡ false
      → from_receiver [] (d ∷ v) ≡ some ((c ∷ name) ∷ [])
      → submatches go_func (codes "func " ++ d ∷ v) ≡ some ((c ∷ name) ∷ [])
  unfolding submatches run
  submatches-func d v plain h =
      many-takes is_blank [] d v from_receiver ((c ∷ name) ∷ []) (32 ∷ []) (refl, tt) plain h

-- A receiver in parentheses and a space, or nothing.
abbrev pub receiver_text : Option Str → Str
receiver_text none = []
receiver_text (some r) = b'(' ∷ r ++ b')' ∷ 32 ∷ []

-- No parenthesis is closed in the receiver.
abbrev pub IsClosing : Option Str → Type 0
IsClosing none = Unit
IsClosing (some r) = All (λ d. not (d == b')') ≡ true) r

-- `func`, a receiver, the name and the parameters, as Go writes them.
abbrev pub go_header : Option Str → Str → Str → Str
go_header r name rest = codes "func " ++ (receiver_text r ++ (name ++ b'(' ∷ rest))

submatches-header :
    (r : Option Str) (c : ℕ) (name rest : Str)
    → IsClosing r
    → is_letter c ≡ true
    → All (λ d. is_letter_or_digit d ≡ true) name
    → submatches go_func (go_header r (c ∷ name) rest) ≡ some ((c ∷ name) ∷ [])
submatches-header none c name rest closed letter h =
    submatches-func c name rest letter h c (name ++ b'(' ∷ rest) (not_blank c name rest letter h)
      (without_receiver c name rest letter h)
submatches-header (some r) c name rest closed letter h =
    let text = b')' ∷ 32 ∷ c ∷ (name ++ b'(' ∷ rest) in
    ap (λ s. submatches go_func (codes "func " ++ b'(' ∷ s))
      (append_assoc r (b')' ∷ 32 ∷ []) (c ∷ (name ++ b'(' ∷ rest)))
    ∙ submatches-func c name rest letter h b'(' (r ++ text) refl
        (with_receiver c name rest letter h r closed)

-- The header of a Go function or method without type parameters, `func`, a receiver in parentheses
-- or none, the name, a parenthesis and anything, gives its name, if the name is an identifier of
-- ASCII letters, digits and underscores, and no parenthesis is closed within the receiver.
pub go_enclosing_name-go_header :
    (r : Option Str) (c : ℕ) (name rest : Str)
    → IsClosing r
    → is_letter c ≡ true
    → All (λ d. is_letter_or_digit d ≡ true) name
    → go_enclosing_name (go_header r (c ∷ name) rest)
      ≡ some (codes "function_declaration", c ∷ name)
unfolding go_enclosing_name
go_enclosing_name-go_header r c name rest closed letter h =
    ap (λ n. found_or (codes "function_declaration") n none)
      (name_in-last_of go_func (go_header r (c ∷ name) rest)
        ∙ ap last_of (submatches-header r c name rest closed letter h))
