-- ===== src/Dict/Unique.antt =====
-- Dictionaries whose keys are distinct, and a bound on their size.
use ollama_herd.Common.{
  ◌+◌, ◌≤◌, ◌≡◌, refl, true, false, List, [], ◌∷◌, arith, Text, text_eq, text_eq_iff, if◌then◌else◌,
  length, mem,
}
use ollama_herd.Dict.{Dict, get, set, pop, contains, get-set, get-pop}

abbrev pub Unique {ℓ} : {V : Type ℓ} → Dict V → Type 0
Unique [] = Unit
Unique ((k, v) ∷ d) = (contains k d ≡ false) × Unique d

module _ {ℓ} {V : Type ℓ} where
  pub set-Unique : (k : Text) (v : V) (d : Dict V) → Unique d → Unique (set k v d)
  unfolding set get
  set-Unique k v [] u = (refl, tt)
  set-Unique k v ((j, w) ∷ d) u =
      ground (arith, set-Unique k v d u.1, get-set k j v d, text_eq_iff k j, text_eq_iff j k)

  pub pop-Unique : (k : Text) (d : Dict V) → Unique d → Unique (pop k d)
  unfolding pop
  pop-Unique k [] u = tt
  pop-Unique k ((j, w) ∷ d) u = ground (arith, pop-Unique k d u.1, get-pop k j d)

remove_one : Text → List Text → List Text
remove_one k [] = []
remove_one k (x ∷ xs) = if text_eq k x then xs else x ∷ remove_one k xs

length-remove_one :
    (k : Text) (xs : List Text) → mem k xs ≡ true → length (remove_one k xs) + 1 ≡ length xs
unfolding remove_one
length-remove_one k [] h = cc
length-remove_one k (x ∷ xs) h = ground (arith, length-remove_one k xs)

mem-remove_one_ne :
    (j k : Text) (xs : List Text)
    → text_eq k j ≡ false
    → mem j xs ≡ true
    → mem j (remove_one k xs) ≡ true
unfolding remove_one
mem-remove_one_ne j k [] n h = cc
mem-remove_one_ne j k (x ∷ xs) n h =
    ground (arith, mem-remove_one_ne j k xs, text_eq_iff k x, text_eq_iff j x, text_eq_iff k j)

-- A dictionary whose keys all stand in a list is no longer than the list.
pub length-le_of_mem {ℓ} :
    {V : Type ℓ} (d : Dict V) (names : List Text)
    → Unique d
    → ((k : Text) → contains k d ≡ true → mem k names ≡ true)
    → length d ≤ length names
unfolding get
length-le_of_mem [] names u h = omega arith
length-le_of_mem ((k, v) ∷ d) names u h =
    let here : mem k names ≡ true = h k (ground (arith, text_eq_iff k k)) in
    let rest =
      length-le_of_mem d (remove_one k names) u.1
        λ j e. mem-remove_one_ne j k names (other j e) (h j (ground arith)) in
    omega (arith, rest, length-remove_one k names here)
  where
    other : (j : Text) → contains j d ≡ true → text_eq k j ≡ false
    other j e = ground (arith, text_eq_iff k j, u.0)
