-- ===== src/Planner/Enumerate/Sorting.antt =====
-- The elements of a list after sorting and after dropping repeats.
use flag_fft.Prelude.{
  ℕ, List, [], ◌∷◌, true, ◌==◌, Bool-cases, ◌≡◌, refl, ◌∙◌, ◌⊎◌, ◌↔◌, inl, inr, In, arith,
}
use flag_fft.Planner.Enumerate.{lex_le, same_list, insert_sorted, sort, drop_repeats, unique}

same_list-eq : (xs ys : List ℕ) → same_list xs ys ≡ true → xs ≡ ys
unfolding same_list
same_list-eq [] [] h = refl
same_list-eq (x ∷ xs) (y ∷ ys) h = elim (Bool-cases (x == y)) [
  | inl e ↦ let head : x ≡ y = ground arith in let tail = same_list-eq xs ys (ground arith) in cc
  | inr ne ↦ absurd (ground arith)
]
same_list-eq [] (y ∷ ys) h = cc
same_list-eq (x ∷ xs) [] h = cc

In-insert_sorted :
    (a x : List ℕ) (xs : List (List ℕ)) → In a (insert_sorted x xs) ↔ ((a ≡ x) ⊎ In a xs)
unfolding insert_sorted
In-insert_sorted a x [] = (λ m. m, λ m. m)
In-insert_sorted a x (y ∷ ys) = elim (Bool-cases (lex_le x y)) [
  | inl before ↦ rw before ((λ m. m), (λ m. m))
  | inr after ↦
      let ih = In-insert_sorted a x ys in
      rw after (
        elim [
          | inl e ↦ inr (inl e)
          | inr m ↦ elim (ih.0 m) [ inl e ↦ inl e | inr m' ↦ inr (inr m') ]
        ],
        elim [
          | inl e ↦ inr (ih.1 (inl e))
          | inr (inl e) ↦ inl e
          | inr (inr m) ↦ inr (ih.1 (inr m))
        ],
      )
]

In-sort : (a : List ℕ) (xs : List (List ℕ)) → In a (sort xs) ↔ In a xs
unfolding sort
In-sort a [] = (λ m. m, λ m. m)
In-sort a (x ∷ xs) =
    let step = In-insert_sorted a x (sort xs) in
    let ih = In-sort a xs in
    (
      λ m. elim (step.0 m) [ inl e ↦ inl e | inr m' ↦ inr (ih.0 m') ],
      elim [ inl e ↦ step.1 (inl e) | inr m ↦ step.1 (inr (ih.1 m)) ],
    )

In-drop_repeats :
    (a x : List ℕ) (xs : List (List ℕ)) → In a (drop_repeats x xs) ↔ ((a ≡ x) ⊎ In a xs)
unfolding drop_repeats
In-drop_repeats a x [] = (λ m. m, λ m. m)
In-drop_repeats a x (y ∷ ys) =
    let ih = In-drop_repeats a y ys in
    elim (Bool-cases (same_list x y)) [
      | inl same ↦
          let e = same_list-eq x y same in
          rw same (λ m. inr (ih.0 m), elim [ inl e' ↦ ih.1 (inl (e' ∙ e)) | inr m ↦ ih.1 m ])
      | inr other ↦ rw other (
        elim [ inl e ↦ inl e | inr m ↦ inr (ih.0 m) ],
        elim [ inl e ↦ inl e | inr m ↦ inr (ih.1 m) ],
      )
    ]

In-unique : (a : List ℕ) (xs : List (List ℕ)) → In a (unique xs) ↔ In a xs
unfolding unique
In-unique a [] = (λ m. m, λ m. m)
In-unique a (x ∷ xs) = In-drop_repeats a x xs

-- Sorting and dropping repeats keeps exactly the elements.
pub In-unique-sort : (a : List ℕ) (xs : List (List ℕ)) → In a (unique (sort xs)) ↔ In a xs
In-unique-sort a xs = (
  (λ m. (In-sort a xs).0 ((In-unique a (sort xs)).0 m)),
  (λ m. (In-unique a (sort xs)).1 ((In-sort a xs).1 m)),
)
