-- ===== src/SemDiff/Pieces.antt =====
-- The pieces of goFuncCommentPattern of semdiff.go, as texts.
use patchbin.Base.{
  ℕ, Str, Bool, true, not, ◌++◌, List, [], ◌∷◌, append_assoc, All, ◌≡◌, ◌⊎◌, inl, inr, refl, sym,
  ap, subst, ◌∙◌, ◌==◌, arith,
}
use patchbin.Base.Regex.{
  Regex, optional, word, is_letter, is_letter_or_digit, is_blank, identifier, blanks,
}
use patchbin.Base.Regex.Matches.{Star, Matches}
use patchbin.SemDiff.Patterns.{byte, but}

-- White space
abbrev pub IsBlank : Str → Type 0
IsBlank ws = All (λ c. is_blank c ≡ true) ws

-- A letter or an underscore, and letters, digits and underscores behind it.
abbrev pub IsName : Str → Type 0
IsName name =
    (c : ℕ) × (cs : Str) × (name ≡ c ∷ cs)
    × (is_letter c ≡ true)
    × All (λ d. is_letter_or_digit d ≡ true) cs

-- Nothing, or a text in parentheses, in which none is closed, and white space behind it.
abbrev pub IsReceiver : Str → Type 0
IsReceiver text =
    ((inner : Str) × (ws : Str) × (text ≡ b'(' ∷ (inner ++ b')' ∷ ws))
      × All (λ c. not (c == b')') ≡ true) inner
      × IsBlank ws)
    ⊎ (text ≡ [])

-- What a pattern without groups reads: a text of this kind, with nothing caught.
abbrev pub Reads : Regex → (Str → Type 0) → Type 0
Reads r Is =
    (caught : List Str) (s : Str) (caught' : List Str) (s' : Str)
    → Matches r caught s caught' s'
    → (caught ≡ caught') × ((x : Str) × (s ≡ x ++ s') × Is x)

-- What it matches.
abbrev pub Accepts : Regex → (Str → Type 0) → Type 0
Accepts r Is = (caught : List Str) (x s' : Str) → Is x → Matches r caught (x ++ s') caught s'

pub byte-eq : (b c : ℕ) → (c == b) ≡ true → c ≡ b
byte-eq b c h = ground arith

eq-byte : (b : ℕ) → (b == b) ≡ true
eq-byte b = ground arith

module _ (p : ℕ → Bool) where
  pub many-Reads : Reads (Regex.many (Regex.one p)) (All (λ c. p c ≡ true))
  many-Reads caught s caught' s' (Star.stop e e') = (e, ([], e', tt))
  many-Reads caught s caught' s'
        (Star.again {caught1 = caught1} {s1 = s1} (c, at, holds, e) later) =
      let (e', (x, at', all)) = many-Reads caught1 s1 caught' s' later in
      (e ∙ e', (c ∷ x, at ∙ ap (λ t. c ∷ t) at', (holds, all)))

  pub many-Accepts : Accepts (Regex.many (Regex.one p)) (All (λ c. p c ≡ true))
  many-Accepts caught [] s' h = Star.stop refl refl
  many-Accepts caught (c ∷ x) s' (here, h) =
      Star.again (c, refl, here, refl) (many-Accepts caught x s' h)

pub word-Reads : (w : Str) → Reads (word w) (λ x. x ≡ w)
word-Reads [] caught s caught' s' (e, at) = (e, ([], at, refl))
word-Reads (c ∷ w) caught s caught' s' (caught1, s1, (d, at, same, e), later) =
    let (e', (x, at', is)) = word-Reads w caught1 s1 caught' s' later in
    (e ∙ e', (c ∷ x, at ∙ (λ i. byte-eq c d same i ∷ at' i), ap (λ t. c ∷ t) is))

pub word-Accepts :
    (w : Str) (caught : List Str) (s' : Str) → Matches (word w) caught (w ++ s') caught s'
word-Accepts [] caught s' = (refl, refl)
word-Accepts (c ∷ w) caught s' =
    (caught, w ++ s', (c, refl, eq-byte c, refl), word-Accepts w caught s')

pub identifier-Reads : Reads identifier IsName
identifier-Reads caught s caught' s' (caught1, s1, (c, at, letter, e), later) =
    let (e', (x, at', all)) = many-Reads is_letter_or_digit caught1 s1 caught' s' later in
    (e ∙ e', (c ∷ x, at ∙ ap (λ t. c ∷ t) at', (c, x, refl, letter, all)))

pub identifier-Accepts : Accepts identifier IsName
identifier-Accepts caught x s' (c, cs, is, letter, all) =
    subst (λ n. Matches identifier caught (n ++ s') caught s') (sym is)
      (caught, cs ++ s', (c, refl, letter, refl), many-Accepts is_letter_or_digit caught cs s' all)

-- The group of the receiver
abbrev pub receiver : Regex
receiver =
    optional
      (Regex.seq (byte b'(') (Regex.seq (Regex.many (but b')')) (Regex.seq (byte b')') blanks)))

pub receiver-Reads : Reads receiver IsReceiver
receiver-Reads caught s caught' s' (inr (e, at)) = (e, ([], at, inr refl))
receiver-Reads caught s caught' s'
      (inl (c1, s1, (d, at, same, e), (c2, s2, inside, (c3, s3, (d', at2, same', e2), behind)))) =
    let (e1, (inner, at1, closed)) = many-Reads (λ c. not (c == b')')) c1 s1 c2 s2 inside in
    let (e3, (ws, at3, blank)) = many-Reads is_blank c3 s3 caught' s' behind in
    let tail : s2 ≡ b')' ∷ (ws ++ s') = at2 ∙ (λ i. byte-eq b')' d' same' i ∷ at3 i) in
    (
      e ∙ e1 ∙ e2 ∙ e3,
      (
        b'(' ∷ (inner ++ b')' ∷ ws),
        at
            ∙ (λ i. byte-eq b'(' d same i ∷ at1 i)
            ∙ ap (λ t. b'(' ∷ (inner ++ t)) tail
            ∙ ap (λ t. b'(' ∷ t) (sym (append_assoc inner (b')' ∷ ws) s')),
        inl (inner, ws, refl, closed, blank),
      ),
    )

pub receiver-Accepts : Accepts receiver IsReceiver
receiver-Accepts caught x s' (inr is) =
    subst (λ t. Matches receiver caught (t ++ s') caught s') (sym is) (inr (refl, refl))
receiver-Accepts caught x s' (inl (inner, ws, is, closed, blank)) =
    subst (λ t. Matches receiver caught t caught s')
      (sym (ap (λ t. t ++ s') is ∙ ap (λ t. b'(' ∷ t) (append_assoc inner (b')' ∷ ws) s')))
      (inl (
        caught,
        inner ++ b')' ∷ (ws ++ s'),
        (b'(', refl, refl, refl),
        (
          caught,
          b')' ∷ (ws ++ s'),
          many-Accepts (λ c. not (c == b')')) caught inner (b')' ∷ (ws ++ s')) closed,
          (caught, ws ++ s', (b')', refl, refl, refl), many-Accepts is_blank caught ws s' blank),
        ),
      ))
