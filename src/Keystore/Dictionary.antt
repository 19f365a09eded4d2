-- ===== src/Keystore/Dictionary.antt =====
-- A `Record<string, T>` as the list of its entries, in order of insertion.
use vor.Common.{
  ◌≡◌, refl, Option, none, some, List, [], ◌∷◌, if◌then◌else◌, arith, Text, text_eq, text_eq_iff,
}

abbrev pub Dict {ℓ} : Type ℓ → Type ℓ
Dict A = List (Text × A)

module _ {ℓ} {A : Type ℓ} where
  -- `d[k]`, where `none` is `undefined`
  unfoldable pub find : Text → Dict A → Option A
  find k [] = none
  find k ((j, v) ∷ d) = if text_eq j k then some v else find k d

  -- `d[k] = v`: a present key keeps its place
  unfoldable pub put : Text → A → Dict A → Dict A
  put k v [] = (k, v) ∷ []
  put k v ((j, w) ∷ d) = let later = (j, w) ∷ put k v d in if text_eq j k then (j, v) ∷ d else later

  -- `Object.fromEntries(Object.entries(d).map(([k, v]) => [k, f(v)]))`
  unfoldable pub map_values : (A → A) → Dict A → Dict A
  map_values f [] = []
  map_values f ((j, v) ∷ d) = (j, f v) ∷ map_values f d

  pub find-put :
      (j k : Text) (v : A) (d : Dict A)
      → find j (put k v d) ≡ (if text_eq k j then some v else find j d)
  unfolding find put
  find-put j k v [] = refl
  find-put j k v ((i, w) ∷ d) =
      ground (arith, text_eq_iff k j, text_eq_iff i k, text_eq_iff i j, find-put j k v d)

abbrev pub map_option {ℓ} : {A : Type ℓ} → (A → A) → Option A → Option A
map_option f none = none
map_option f (some a) = some (f a)

pub find-map_values {ℓ} :
    {A : Type ℓ} (k : Text) (f : A → A) (d : Dict A)
    → find k (map_values f d) ≡ map_option f (find k d)
unfolding find map_values
find-map_values k f [] = refl
find-map_values k f ((j, v) ∷ d) = ground (arith, find-map_values k f d)
