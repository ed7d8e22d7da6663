-- ===== src/FileManager/Order.antt =====
-- The order of the entries (les11_my_mc/src/main.c, `goodSort`).
use summer_school.Base.{
  ℕ, sym, ◌∙◌, ap, some-injective, zero, suc, ◌+◌, ◌≡◌, ◌≢◌, refl, true, some, List, [], ◌∷◌, arith,
  get_elem?, Option-cases, inl, inr, get_elem?-lt, get_elem?-eq-get_or,
}
use summer_school.FileManager.{Sign, before, same, after, strcmp, Dirent, good_sort}

abbrev pub flip : Sign → Sign
flip before = after
flip same = same
flip after = before

strcmp-flip : (x y : List ℕ) → strcmp y x ≡ flip (strcmp x y)
unfolding strcmp
strcmp-flip [] [] = refl
strcmp-flip [] (b ∷ y) = refl
strcmp-flip (a ∷ x) [] = refl
strcmp-flip (a ∷ x) (b ∷ y) = ground (arith, strcmp-flip x y)

strcmp_trans : (x y z : List ℕ) → strcmp x y ≢ after → strcmp y z ≢ after → strcmp x z ≢ after
unfolding strcmp
strcmp_trans [] y [] h k = λ e. ground arith
strcmp_trans [] y (c ∷ z) h k = λ e. ground arith
strcmp_trans (a ∷ x) [] z h k = absurd (h refl)
strcmp_trans (a ∷ x) (b ∷ y) [] h k = absurd (k refl)
strcmp_trans (a ∷ x) (b ∷ y) (c ∷ z) h k = λ e. ground (arith, strcmp_trans x y z)

-- `goodSort` is a total preorder, as `qsort` needs: exchanging the entries turns its sign around,
-- and an entry that does not come after a second one, which does not come after a third one, does
-- not come after the third.
pub good_sort_lem :
    (a b c : Dirent)
    → (good_sort b a ≡ flip (good_sort a b))
      × (good_sort a b ≢ after → good_sort b c ≢ after → good_sort a c ≢ after)
unfolding good_sort
good_sort_lem a b c = (
  ground (arith, strcmp-flip a.d_name b.d_name),
  λ h k e. ground (arith, strcmp_trans a.d_name b.d_name c.d_name),
)

-- In a list where no entry comes after its successor, every entry ahead of a directory is a
-- directory.
pub good_sort-directories :
    (dir : List Dirent) (d e : Dirent) (i k : ℕ)
    → ((j : ℕ) (x y : Dirent)
        → get_elem? dir j ≡ some x
        → get_elem? dir (suc j) ≡ some y
        → good_sort x y ≢ after)
    → get_elem? dir i ≡ some d
    → get_elem? dir (k + i) ≡ some e
    → e.is_dir ≡ true
    → d.is_dir ≡ true
unfolding good_sort
good_sort-directories dir d e i zero s p q t =
    let here : 0 + i ≡ i = omega arith in
    let o : some d ≡ some e = sym p ∙ (rw here at q) in
    ground (arith, ap Dirent.is_dir (some-injective _ _ o))
good_sort-directories dir d e i (suc k) s p r t =
    let next : suc k + i ≡ suc (k + i) = omega arith in
    let q = rw next at r in
    elim (Option-cases (get_elem? dir (k + i))) [
      | inl out ↦
          absurd
            (ground (arith, get_elem?-lt dir (suc (k + i)) q, get_elem?-eq-get_or dir (k + i) e))
      | inr (x, found) ↦
          good_sort-directories dir d x i k s p found (ground (arith, s (k + i) x e found q))
    ]
