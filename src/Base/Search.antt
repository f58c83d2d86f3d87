-- ===== src/Base/Search.antt =====
-- Searching and splitting: strings.Index, Contains, Split and SplitN.
use Prim.Native.Nat.{ℕ, zero, suc, ◌-◌}
use mathlib.Core.Path.{◌≡◌, refl, sym, ap, ◌∙◌}
use mathlib.Core.Logic.{inl, inr}
use mathlib.Core.Bool.{Bool, true, false}
use mathlib.Core.Option
use mathlib.Core.Option.{Option, none, some}
use mathlib.Core.List.{List, [], ◌∷◌, ◌++◌, map, append_assoc, append-nil}
use native.Mathlib.Omega.{arith}
use patchbin.Base.Tests.{◌==◌, if◌then◌else◌, Bool-cases, Option-cases}
use patchbin.Base.Lists.{length, drop}
use patchbin.Base.Text.{Str, has_prefix, has_prefix-split, has_byte}

-- strings.Index: the first position at which `sub` stands.
unfoldable pub index_of : Str → Str → Option ℕ
index_of [] sub = if has_prefix [] sub then some 0 else none
index_of (c ∷ s) sub =
    let rest = Option.map suc (index_of s sub) in if has_prefix (c ∷ s) sub then some 0 else rest

-- strings.Contains
pub contains : Str → Str → Bool
contains s sub = elim (index_of s sub) [ none ↦ false | some _ ↦ true ]

-- strings.SplitN(s, sep, 2) for one byte: the text before the first separator, and the text behind
-- it if there is a separator.
unfoldable pub cut_first : ℕ → Str → Str × Option Str
cut_first b [] = ([], none)
cut_first b (c ∷ s) =
    let (before, after) = cut_first b s in if c == b then ([], some s) else (c ∷ before, after)

-- A text cut at its last separator: the text before and behind it.
unfoldable pub cut_last : ℕ → Str → Option (Str × Str)
cut_last b [] = none
cut_last b (c ∷ s) = elim (cut_last b s) [
  | some (x, y) ↦ some (c ∷ x, y)
  | none ↦ if c == b then some ([], s) else none
]

-- strings.Split: `skip` bytes of a separator are still to be passed over.
unfoldable pub split_from : Str → ℕ → Str → Str → List Str
split_from sep skip cur [] = cur ∷ []
split_from sep (suc skip) cur (c ∷ s) = split_from sep skip cur s
split_from sep zero cur (c ∷ s) = elim (has_prefix (c ∷ s) sep) [
  | true ↦ cur ∷ split_from sep (length sep - 1) [] s
  | false ↦ split_from sep zero (cur ++ c ∷ []) s
]

unfoldable pub split : Str → Str → List Str
unfolding split_from
split s sep = split_from sep 0 [] s

-- strings.Join
unfoldable pub join : List Str → Str → Str
join [] sep = []
join (p ∷ []) sep = p
join (p ∷ q ∷ ps) sep = p ++ (sep ++ join (q ∷ ps) sep)

-- What follows the first part, every part behind a separator.
behind : List Str → Str → Str
behind [] sep = []
behind (p ∷ ps) sep = sep ++ join (p ∷ ps) sep

join-cons : (p : Str) (ps : List Str) (sep : Str) → join (p ∷ ps) sep ≡ p ++ behind ps sep
unfolding join behind
join-cons p [] sep = sym (append-nil p)
join-cons p (q ∷ ps) sep = refl

split_from-ne-nil :
    (sep : Str) (skip : ℕ) (cur s : Str)
    → (p : Str) × (ps : List Str) × (split_from sep skip cur s ≡ p ∷ ps)
unfolding split_from
split_from-ne-nil sep skip cur [] = (cur, [], refl)
split_from-ne-nil sep (suc skip) cur (c ∷ s) = split_from-ne-nil sep skip cur s
split_from-ne-nil sep zero cur (c ∷ s) = elim (Bool-cases (has_prefix (c ∷ s) sep)) [
  | inl hit ↦ (cur, split_from sep (length sep - 1) [] s, rw (hit, split_from))
  | inr miss ↦ rw (miss, split_from) (split_from-ne-nil sep zero (cur ++ c ∷ []) s)
]

-- The first byte after a cut stands for a whole separator.
behind-join :
    (ps : List Str) (sep : Str) (p : Str) (qs : List Str)
    → ps ≡ p ∷ qs
    → behind ps sep ≡ sep ++ join ps sep
unfolding behind
behind-join [] sep p qs h = cc
behind-join (x ∷ ps) sep p qs h = refl

module _ (b : ℕ) (rest : Str) where
  join-split_from :
      (skip : ℕ) (cur s : Str)
      → join (split_from (b ∷ rest) skip cur s) (b ∷ rest) ≡ cur ++ drop skip s
  unfolding split_from
  join-split_from zero cur [] = unfold join in sym (append-nil cur)
  join-split_from (suc skip) cur [] = unfold join in sym (append-nil cur)
  join-split_from (suc skip) cur (c ∷ s) = join-split_from skip cur s
  join-split_from zero cur (c ∷ s) = elim (Bool-cases (has_prefix (c ∷ s) (b ∷ rest))) [
    | inl hit ↦
        rw (hit, split_from)
          (let (p, qs, e) = split_from-ne-nil (b ∷ rest) (length rest) [] s in
            let same : suc (length rest) - 1 ≡ length rest = omega arith in
            rw same (
              join-cons cur _ _
              ∙ ap (λ t. cur ++ t)
                  (behind-join _ _ p qs e
                    ∙ ap (λ t. (b ∷ rest) ++ t) (join-split_from (length rest) [] s)
                    ∙ has_prefix-split (c ∷ s) (b ∷ rest) hit)))
    | inr miss ↦
        rw (miss, split_from) (join-split_from zero (cur ++ c ∷ []) s ∙ append_assoc cur (c ∷ []) s)
  ]

  -- Joining the parts of a split gives the text back.
  pub join-split : (s : Str) → join (split s (b ∷ rest)) (b ∷ rest) ≡ s
  unfolding split
  join-split s = join-split_from 0 [] s

pub cut_first-append :
    (b : ℕ) (s t : Str) → has_byte b s ≡ false → cut_first b (s ++ b ∷ t) ≡ (s, some t)
unfolding cut_first
cut_first-append b [] t h = ground arith
cut_first-append b (c ∷ s) t h = ground (arith, cut_first-append b s t)

pub cut_last-lacks : (b : ℕ) (t : Str) → has_byte b t ≡ false → cut_last b t ≡ none
unfolding cut_last
cut_last-lacks b [] h = refl
cut_last-lacks b (c ∷ t) h = ground (arith, cut_last-lacks b t)

pub cut_last-append :
    (b : ℕ) (s t : Str) → has_byte b t ≡ false → cut_last b (s ++ b ∷ t) ≡ some (s, t)
unfolding cut_last
cut_last-append b [] t h = ground (arith, cut_last-lacks b t h)
cut_last-append b (c ∷ s) t h = ground (arith, cut_last-append b s t h)

-- What a cut at the first separator says of the text.
pub cut_first-some :
    (b : ℕ) (s after : Str)
    → (cut_first b s).1 ≡ some after
    → (s ≡ (cut_first b s).0 ++ b ∷ after) × (has_byte b (cut_first b s).0 ≡ false)
unfolding cut_first
cut_first-some b [] after h = cc
cut_first-some b (c ∷ s) after h = ground (arith, cut_first-some b s after)

pub cut_last-some :
    (b : ℕ) (s before after : Str) → cut_last b s ≡ some (before, after) → s ≡ before ++ b ∷ after
unfolding cut_last
cut_last-some b [] before after h = cc
cut_last-some b (c ∷ s) before after h = elim (Option-cases (cut_last b s)) [
  | inl none_is ↦ ground arith
  | inr ((x, y), found) ↦ ground (arith, cut_last-some b s x y found)
]

pub split-cons : (s sep : Str) → (p : Str) × (ps : List Str) × (split s sep ≡ p ∷ ps)
unfolding split
split-cons s sep = split_from-ne-nil sep 0 [] s

-- A text in front of the first part is a text in front of the whole.
pub join-append :
    (x p : Str) (ps : List Str) (sep : Str) → join ((x ++ p) ∷ ps) sep ≡ x ++ join (p ∷ ps) sep
unfolding join
join-append x p [] sep = refl
join-append x p (q ∷ ps) sep = append_assoc x p _

-- A separator may be cut in two: its end goes in front of every part but the first.
pub join-map_append :
    (a b p : Str) (ps : List Str) → join (p ∷ map (λ q. b ++ q) ps) a ≡ join (p ∷ ps) (a ++ b)
unfolding join
join-map_append a b p [] = refl
join-map_append a b p (q ∷ ps) =
    ap (λ t. p ++ (a ++ t))
      (join-append b q (map (λ q. b ++ q) ps) a ∙ ap (λ t. b ++ t) (join-map_append a b q ps))
    ∙ ap (λ t. p ++ t) (sym (append_assoc a b (join (q ∷ ps) (a ++ b))))

-- Up to a separator of one byte a text is one part.
split_from-part :
    (b : ℕ) (cur s tail : Str)
    → has_byte b s ≡ false
    → split_from (b ∷ []) 0 cur (s ++ b ∷ tail) ≡ (cur ++ s) ∷ split_from (b ∷ []) 0 [] tail
unfolding split_from
split_from-part b cur [] tail lacks =
    let hit : (b == b) ≡ true = ground arith in
    rw (hit, split_from) (ap (λ t. t ∷ split_from (b ∷ []) 0 [] tail) (sym (append-nil cur)))
split_from-part b cur (c ∷ s) tail lacks =
    let miss : (c == b) ≡ false = ground arith in
    rw (miss, split_from)
      (split_from-part b (cur ++ c ∷ []) s tail (ground arith)
        ∙ ap (λ t. t ∷ split_from (b ∷ []) 0 [] tail) (append_assoc cur (c ∷ []) s))

pub split-part :
    (b : ℕ) (s tail : Str)
    → has_byte b s ≡ false
    → split (s ++ b ∷ tail) (b ∷ []) ≡ s ∷ split tail (b ∷ [])
unfolding split
split-part b s tail lacks = split_from-part b [] s tail lacks

split_from-whole :
    (b : ℕ) (cur s : Str) → has_byte b s ≡ false → split_from (b ∷ []) 0 cur s ≡ (cur ++ s) ∷ []
unfolding split_from
split_from-whole b cur [] lacks = ap (λ t. t ∷ []) (sym (append-nil cur))
split_from-whole b cur (c ∷ s) lacks =
    let miss : (c == b) ≡ false = ground arith in
    rw (miss, split_from)
      (split_from-whole b (cur ++ c ∷ []) s (ground arith)
        ∙ ap (λ t. t ∷ []) (append_assoc cur (c ∷ []) s))

pub split-whole : (b : ℕ) (s : Str) → has_byte b s ≡ false → split s (b ∷ []) ≡ s ∷ []
unfolding split
split-whole b s lacks = split_from-whole b [] s lacks
