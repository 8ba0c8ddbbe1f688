-- ===== src/Layout/Order.antt =====
-- The order of std::string, as src/layout_detector.cpp uses it: std::map<std::string, …> and
-- std::sort.
use Prim.Native.Nat.{Ordering}
use Prim.Native.String.{compare}
use rtc_egress.Prelude.{
  ◌+◌, ◌≤◌, String, List, [], ◌∷◌, ◌≡◌, refl, arith, some, Bool, true, false, Dict, if◌then◌else◌,
  lookup, str_eq, eq_iff, length, ◌||◌,
}

abbrev pub text_lt : String → String → Bool
text_lt a b = elim (compare a b) [ Ordering.lt ↦ true | _ ↦ false ]

module _ {ℓ} {V : Type ℓ} where
  -- m[k] = v in a map that is kept in order.
  unfoldable pub insert_sorted : String → V → Dict V → Dict V
  insert_sorted k v [] = (k, v) ∷ []
  insert_sorted k v ((j, w) ∷ m) =
      if str_eq j k
      then (k, v) ∷ m
      else if text_lt k j
      then (k, v) ∷ (j, w) ∷ m
      else (j, w) ∷ insert_sorted k v m

  pub lookup-insert_sorted :
      (k j : String) (v : V) (m : Dict V)
      → lookup j (insert_sorted k v m) ≡ (if str_eq k j then some v else lookup j m)
  unfolding lookup insert_sorted
  lookup-insert_sorted k j v [] = refl
  lookup-insert_sorted k j v ((i, w) ∷ m) =
      ground (arith, eq_iff k j, eq_iff i k, eq_iff i j, lookup-insert_sorted k j v m)

  pub length-insert_sorted_le :
      (k : String) (v : V) (m : Dict V) → length (insert_sorted k v m) ≤ length m + 1
  unfolding insert_sorted
  length-insert_sorted_le k v [] = omega arith
  length-insert_sorted_le k v ((i, w) ∷ m) = ground (arith, length-insert_sorted_le k v m)

-- std::sort
unfoldable pub insert_text : String → List String → List String
insert_text a [] = a ∷ []
insert_text a (b ∷ bs) = if text_lt b a then b ∷ insert_text a bs else a ∷ b ∷ bs

unfoldable pub sort_texts : List String → List String
unfolding insert_text
sort_texts [] = []
sort_texts (a ∷ l) = insert_text a (sort_texts l)

unfoldable pub contains : String → List String → Bool
contains a [] = false
contains a (b ∷ bs) = str_eq b a || contains a bs

contains-insert_text :
    (a b : String) (bs : List String)
    → contains a (insert_text b bs) ≡ (str_eq b a || contains a bs)
unfolding contains insert_text
contains-insert_text a b [] = refl
contains-insert_text a b (c ∷ cs) = ground (arith, contains-insert_text a b cs)

-- Sorting keeps the texts.
pub contains-sort_texts : (a : String) (l : List String) → contains a (sort_texts l) ≡ contains a l
unfolding contains sort_texts
contains-sort_texts a [] = refl
contains-sort_texts a (b ∷ bs) =
    ground (arith, contains-insert_text a b (sort_texts bs), contains-sort_texts a bs)
