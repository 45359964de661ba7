-- ===== src/RelativePath/Order.antt =====
-- The byte order of paths, and the paths below a root.
use unity_common.Base.{
  ℕ, zero, suc, ◌≤◌, ◌≡◌, ◌≢◌, ◌↔◌, refl, sym, ap, subst, ◌∙◌, inl, inr, true, false, ◌||◌, some,
  [], ◌∷◌, ◌++◌, append-nil, arith, ltb, ◌==◌, if◌then◌else◌, Bool-cases, length, drop,
  length-append,
}
use unity_common.Base.Words.{Bytes}
use unity_common.Base.Int.{ℤ, pos, negsuc}
use unity_common.RelativePath.{
  at, memcmp, is_zero, or_sizes, smaller, compare_bytes, is_equal_or_descendant,
}

-- The lexicographic order of byte strings, a front before what it begins.
unfoldable pub lex : Bytes → Bytes → ℤ
lex [] [] = pos 0
lex [] (y ∷ ys) = negsuc 0
lex (x ∷ xs) [] = pos 1
lex (x ∷ xs) (y ∷ ys) =
    let rest = lex xs ys in if ltb x y then negsuc 0 else if ltb y x then pos 1 else rest

or_sizes-suc : (z : ℤ) (n m : ℕ) → or_sizes z (suc n) (suc m) ≡ or_sizes z n m
or_sizes-suc z n m = ground arith

or_sizes-lex :
    (left right : Bytes)
    → or_sizes
        (memcmp (smaller (length left) (length right)) left right)
        (length left)
        (length right)
      ≡ lex left right
unfolding lex memcmp
or_sizes-lex [] [] = ground arith
or_sizes-lex [] (y ∷ ys) = ground arith
or_sizes-lex (x ∷ xs) [] = ground arith
or_sizes-lex (x ∷ xs) (y ∷ ys) =
    let step : smaller (suc (length xs)) (suc (length ys)) ≡ suc (smaller (length xs) (length ys)) =
      ground arith in
    rw step (elim (Bool-cases (ltb x y)) [
      | inl e ↦ rw e refl
      | inr e ↦ rw e (elim (Bool-cases (ltb y x)) [
        | inl e2 ↦ rw e2 refl
        | inr e2 ↦ rw e2 (
            or_sizes-suc (memcmp (smaller (length xs) (length ys)) xs ys) (length xs) (length ys)
            ∙ or_sizes-lex xs ys)
      ])
    ])

abbrev pub compare : Bytes → Bytes → ℤ
compare left right = compare_bytes (some left) (length left) (some right) (length right)

-- The comparison of two whole paths is their lexicographic order by bytes.
pub compare_bytes-lex : (left right : Bytes) → compare left right ≡ lex left right
unfolding compare_bytes
compare_bytes-lex left right = or_sizes-lex left right

abbrev pub flip : ℤ → ℤ
flip (pos zero) = pos 0
flip (pos (suc n)) = negsuc n
flip (negsuc n) = pos (suc n)

lex-zero : (xs ys : Bytes) → lex xs ys ≡ pos 0 → xs ≡ ys
unfolding lex
lex-zero [] [] e = refl
lex-zero [] (y ∷ ys) e = absurd (ground (arith, e))
lex-zero (x ∷ xs) [] e = absurd (ground (arith, e))
lex-zero (x ∷ xs) (y ∷ ys) e =
    let same : x ≡ y = ground (arith, e) in
    let rest : xs ≡ ys = lex-zero xs ys (ground (arith, e)) in cc

lex_refl : (xs : Bytes) → lex xs xs ≡ pos 0
unfolding lex
lex_refl [] = refl
lex_refl (x ∷ xs) = ground (arith, lex_refl xs)

lex-flip : (xs ys : Bytes) → lex ys xs ≡ flip (lex xs ys)
unfolding lex
lex-flip [] [] = refl
lex-flip [] (y ∷ ys) = refl
lex-flip (x ∷ xs) [] = refl
lex-flip (x ∷ xs) (y ∷ ys) = elim (Bool-cases (ltb x y)) [
  | inl e ↦ let e2 : ltb y x ≡ false = ground arith in rw (e, e2) refl
  | inr e ↦ elim (Bool-cases (ltb y x)) [
    | inl e2 ↦ rw (e, e2) refl
    | inr e2 ↦ rw (e, e2) (lex-flip xs ys)
  ]
]

lex_trans : (xs ys zs : Bytes) → lex xs ys ≡ negsuc 0 → lex ys zs ≡ negsuc 0 → lex xs zs ≡ negsuc 0
unfolding lex
lex_trans [] [] zs h k = k
lex_trans [] (y ∷ ys) [] h k = absurd (ground (arith, k))
lex_trans [] (y ∷ ys) (z ∷ zs) h k = refl
lex_trans (x ∷ xs) [] zs h k = absurd (ground (arith, h))
lex_trans (x ∷ xs) (y ∷ ys) [] h k = absurd (ground (arith, k))
lex_trans (x ∷ xs) (y ∷ ys) (z ∷ zs) h k = ground (arith, lex_trans xs ys zs)

-- The comparison of two paths is 0 exactly if they are equal, and swapping the sides swaps the sign.
pub compare_bytes-order :
    (left right : Bytes)
    → ((compare left right ≡ pos 0) ↔ (left ≡ right))
      × (compare right left ≡ flip (compare left right))
compare_bytes-order left right =
    rw (compare_bytes-lex left right, compare_bytes-lex right left)
      (
        (lex-zero left right, λ e. subst (λ r. lex left r ≡ pos 0) e (lex_refl left)),
        lex-flip left right,
      )

-- A path below one that is below a third is below the third.
pub compare_bytes_trans :
    (first second third : Bytes)
    → compare first second ≡ negsuc 0
    → compare second third ≡ negsuc 0
    → compare first third ≡ negsuc 0
compare_bytes_trans first second third h k =
    compare_bytes-lex first third
    ∙ lex_trans first second third (sym (compare_bytes-lex first second) ∙ h)
        (sym (compare_bytes-lex second third) ∙ k)

-- What stands below a root: the root itself, or the root, a slash and anything.
pub data Below (root candidate : Bytes) : Type 0 where
  equal : candidate ≡ root → Below root candidate
  descendant : (rest : Bytes) → candidate ≡ root ++ 0x2f ∷ rest → Below root candidate

memcmp-front : (root rest : Bytes) → memcmp (length root) (root ++ rest) root ≡ pos 0
unfolding memcmp
memcmp-front [] rest = refl
memcmp-front (x ∷ xs) rest = ground (arith, memcmp-front xs rest)

memcmp-zero :
    (root candidate : Bytes)
    → length root ≤ length candidate
    → is_zero (memcmp (length root) candidate root) ≡ true
    → candidate ≡ root ++ drop (length root) candidate
unfolding memcmp
memcmp-zero [] candidate h e = refl
memcmp-zero (x ∷ xs) [] h e = absurd (omega arith)
memcmp-zero (x ∷ xs) (y ∷ ys) h e =
    let same : y ≡ x = ground (arith, e) in
    let rest : ys ≡ xs ++ drop (length xs) ys =
      memcmp-zero xs ys (omega arith) (ground (arith, e)) in
    ap (λ l. y ∷ l) rest ∙ ap (λ v. v ∷ (xs ++ drop (length xs) ys)) same

at-append : (root : Bytes) (x : ℕ) (rest : Bytes) → at (root ++ x ∷ rest) (length root) ≡ x
at-append [] x rest = refl
at-append (r ∷ root) x rest = at-append root x rest

length-nonempty : (root : Bytes) → root ≢ [] → (length root == 0) ≡ false
length-nonempty [] n = absurd (n refl)
length-nonempty (r ∷ root) n = ground arith

Below-found :
    (candidate root : Bytes)
    → root ≢ []
    → Below root candidate
    → is_equal_or_descendant (some candidate) (some root) ≡ true
unfolding is_equal_or_descendant
Below-found candidate root n (equal e) =
    let front : memcmp (length root) root root ≡ pos 0 =
      ap (λ l. memcmp (length root) l root) (sym (append-nil root)) ∙ memcmp-front root [] in
    rw (e, length-nonempty root n, front) (ground arith)
Below-found candidate root n (descendant rest e) =
    rw
      (
        e,
        length-nonempty root n,
        memcmp-front root (0x2f ∷ rest),
        at-append root 0x2f rest,
        length-append root (0x2f ∷ rest),
      )
      (ground arith)

Below-accepted :
    (candidate root : Bytes)
    → is_equal_or_descendant (some candidate) (some root) ≡ true
    → (root ≢ []) × Below root candidate
unfolding is_equal_or_descendant
Below-accepted candidate root h =
    elim (Bool-cases (length root == 0 || ltb (length candidate) (length root))) [
      | inl e ↦ let k : false ≡ true = rw e at h in cc
      | inr e ↦ elim (Bool-cases (is_zero (memcmp (length root) candidate root))) [
        | inr e2 ↦ let k : false ≡ true = rw (e, e2) at h in cc
        | inl e2 ↦
            let split = memcmp-zero root candidate (ground (arith, e)) e2 in
            let last : (length candidate == length root || at candidate (length root) == 0x2f)
                ≡ true =
              rw (e, e2) at h in
            (
              λ q. let k : (length root == 0) ≡ true = rw q refl in ground (arith, e, k),
              rest (drop (length root) candidate) split last,
            )
      ]
    ]
  where
    rest :
        (tail : Bytes)
        → candidate ≡ root ++ tail
        → (length candidate == length root || at candidate (length root) == 0x2f) ≡ true
        → Below root candidate
    rest [] split last = equal (split ∙ append-nil root)
    rest (x ∷ tail) split last =
        let here : at candidate (length root) ≡ x =
          ap (λ l. at l (length root)) split ∙ at-append root x tail in
        let total = ap length split in
        let slash : x ≡ 0x2f = ground (arith, last, here, total, length-append root (x ∷ tail)) in
        descendant tail (subst (λ v. candidate ≡ root ++ v ∷ tail) slash split)

-- A candidate is accepted exactly if the root is not empty and the candidate is the root or goes on
-- behind it with a slash; a root that is only a front of a component does not count.
pub is_equal_or_descendant_iff :
    (candidate root : Bytes)
    → (is_equal_or_descendant (some candidate) (some root) ≡ true)
      ↔ ((root ≢ []) × Below root candidate)
is_equal_or_descendant_iff candidate root =
    (Below-accepted candidate root, λ (n, b). Below-found candidate root n b)
