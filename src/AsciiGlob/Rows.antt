-- ===== src/AsciiGlob/Rows.antt =====
-- Where a class ends, and what a star does to a row.
use unity_common.Base.{
  ℕ, zero, suc, ◌≤◌, ◌<◌, ◌≡◌, ◌≢◌, ◌↔◌, refl, ap, subst, ◌∙◌, ◌⊎◌, inl, inr, Bool, true, false,
  ◌||◌, Option, none, some, List, [], ◌∷◌, ◌++◌, arith, ◌==◌, Bool-cases, length, get_or,
}
use unity_common.Base.Words.{Bytes}
use unity_common.AsciiGlob.{push, locate_end, star_row}

-- The content of a class: bytes that are no backslash and no closing bracket, and pairs of a backslash and any
-- byte.
pub data IsContent : Bytes → Type 0 where
  empty : IsContent []
  plain : {c : ℕ} {rest : Bytes} → c ≢ 0x5c → c ≢ 0x5d → IsContent rest → IsContent (c ∷ rest)
  escaped : {c d : ℕ} {rest : Bytes} → c ≡ 0x5c → IsContent rest → IsContent (c ∷ d ∷ rest)

-- A text that is a content, a closing bracket and `after`.
pub record Splits (text content after : Bytes) : Type 0 where
  pub parts : text ≡ content ++ 0x5d ∷ after
  pub is_content : IsContent content

abbrev Found : Bytes → Option (Bytes × Bytes) → Type 0
Found text none = Unit {0}
Found text (some (content, after)) = Splits text content after

Found-here : (c : ℕ) (rest : Bytes) → c ≡ 0x5d → Found (c ∷ rest) (some ([], rest))
Found-here c rest e = record { parts = ap (λ x. x ∷ rest) e; is_content = empty }

Found-plain :
    (c : ℕ) (rest : Bytes) (o : Option (Bytes × Bytes))
    → c ≢ 0x5c
    → c ≢ 0x5d
    → Found rest o
    → Found (c ∷ rest) (push c o)
Found-plain c rest none n m h = tt
Found-plain c rest (some (content, after)) n m h = record {
  parts = ap (λ l. c ∷ l) h.parts;
  is_content = plain n m h.is_content;
}

Found-escaped :
    (c d : ℕ) (rest : Bytes) (o : Option (Bytes × Bytes))
    → c ≡ 0x5c
    → Found rest o
    → Found (c ∷ d ∷ rest) (push c (push d o))
Found-escaped c d rest none e h = tt
Found-escaped c d rest (some (content, after)) e h = record {
  parts = ap (λ l. c ∷ d ∷ l) h.parts;
  is_content = escaped e h.is_content;
}

locate_end-Found : (text : Bytes) → Found text (locate_end false text)
unfolding locate_end
locate_end-Found [] = tt
locate_end-Found (c ∷ []) = elim (Bool-cases (c == 0x5c)) [
  | inl e ↦ rw e tt
  | inr e ↦ elim (Bool-cases (c == 0x5d)) [
    | inl e2 ↦ rw (e, e2) (Found-here c [] (ground (arith, e2)))
    | inr e2 ↦ rw (e, e2) tt
  ]
]
locate_end-Found (c ∷ d ∷ rest) = elim (Bool-cases (c == 0x5c)) [
  | inl e ↦ rw e (Found-escaped c d rest _ (ground (arith, e)) (locate_end-Found rest))
  | inr e ↦ elim (Bool-cases (c == 0x5d)) [
    | inl e2 ↦ rw (e, e2) (Found-here c (d ∷ rest) (ground (arith, e2)))
    | inr e2 ↦
        rw (e, e2)
          (Found-plain c (d ∷ rest) (locate_end false (d ∷ rest)) (λ k. ground (arith, e, k))
            (λ k. ground (arith, e2, k)) (locate_end-Found (d ∷ rest)))
  ]
]

locate_end-IsContent :
    {content : Bytes} (after : Bytes)
    → IsContent content
    → locate_end false (content ++ 0x5d ∷ after) ≡ some (content, after)
unfolding locate_end
locate_end-IsContent after empty = refl
locate_end-IsContent after (plain {c} n m h) =
    let e : (c == 0x5c) ≡ false = ground (arith, n) in
    let e2 : (c == 0x5d) ≡ false = ground (arith, m) in
    rw (e, e2) (ap (λ o. push c o) (locate_end-IsContent after h))
locate_end-IsContent after (escaped {c} {d} same h) =
    let e : (c == 0x5c) ≡ true = ground (arith, same) in
    rw e (ap (λ o. push c (push d o)) (locate_end-IsContent after h))

-- An end of a class is found exactly at the first closing bracket that no backslash escapes: the text is then
-- a content without such a bracket, the bracket, and what is reported to stand behind it.
pub locate_end-split :
    (text content after : Bytes)
    → (locate_end false text ≡ some (content, after)) ↔ Splits text content after
locate_end-split text content after = (
  λ h. subst (Found text) h (locate_end-Found text),
  λ h. ap (locate_end false) h.parts ∙ locate_end-IsContent after h.is_content,
)

Reached : Bool → List Bool → ℕ → Type 0
Reached reached row i = (reached ≡ true) ⊎ ((j : ℕ) × (j ≤ i) × (get_or row j false ≡ true))

or-cases : (b c : Bool) → (b || c) ≡ true → (b ≡ true) ⊎ (c ≡ true)
or-cases true c h = inl refl
or-cases false c h = inr h

star_row-Reached :
    (reached : Bool) (row : List Bool) (i : ℕ)
    → get_or (star_row reached row) i false ≡ true
    → Reached reached row i
unfolding star_row Reached
star_row-Reached reached [] i h = absurd (ground (arith, h))
star_row-Reached reached (b ∷ row) zero h = elim (or-cases b reached h) [
  | inl e ↦ inr (0, omega arith, e)
  | inr e ↦ inl e
]
star_row-Reached reached (b ∷ row) (suc i) h = elim (star_row-Reached (b || reached) row i h) [
  | inr (j, below, e) ↦ inr (suc j, omega (arith, below), e)
  | inl e ↦ elim (or-cases b reached e) [ inl e2 ↦ inr (0, omega arith, e2) | inr e2 ↦ inl e2 ]
]

or-true : (b : Bool) → (b || true) ≡ true
or-true true = refl
or-true false = refl

star_row-sets :
    (reached : Bool) (row : List Bool) (i : ℕ)
    → i < length row
    → Reached reached row i
    → get_or (star_row reached row) i false ≡ true
unfolding star_row Reached
star_row-sets reached [] i h r = absurd (omega arith)
star_row-sets reached (b ∷ row) zero h (inl e) = rw e (or-true b)
star_row-sets reached (b ∷ row) zero h (inr (zero, below, e)) = rw e refl
star_row-sets reached (b ∷ row) zero h (inr (suc j, below, e)) = absurd (omega (arith, below))
star_row-sets reached (b ∷ row) (suc i) h (inl e) =
    star_row-sets (b || reached) row i (omega arith) (inl (rw e (or-true b)))
star_row-sets reached (b ∷ row) (suc i) h (inr (zero, below, e)) =
    star_row-sets (b || reached) row i (omega arith) (inl (rw e refl))
star_row-sets reached (b ∷ row) (suc i) h (inr (suc j, below, e)) =
    star_row-sets (b || reached) row i (omega arith) (inr (j, omega (arith, below), e))

-- An entry of the row of a star is set exactly if an entry of the row before is set, there or earlier:
-- the star takes any number of bytes.
pub star_row-get :
    (row : List Bool) (i : ℕ)
    → i < length row
    → (get_or (star_row false row) i false ≡ true)
      ↔ ((j : ℕ) × (j ≤ i) × (get_or row j false ≡ true))
unfolding Reached
star_row-get row i h =
    (λ e. from (star_row-Reached false row i e), λ r. star_row-sets false row i h (inr r))
  where
    from : Reached false row i → (j : ℕ) × (j ≤ i) × (get_or row j false ≡ true)
    from (inl e) = absurd (ground (arith, e))
    from (inr r) = r
