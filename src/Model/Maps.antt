-- ===== src/Model/Maps.antt =====
-- Maps of texts as the handlers merge them.
use trax.Prelude.{
  String, ◌≡◌, refl, sym, ap, ◌∙◌, ◌⊎◌, inl, inr, Bool, true, false, Bool-cases, Option, some, [],
  ◌∷◌, ◌==◌, eq_iff, eq_refl, arith, if◌then◌else◌,
}
use trax.Model.{StringMap, map_get, map_put, map_put_all}

apart : (l k key : String) → (l == key) ≡ true → (l == k) ≡ false → (k == key) ≡ false
apart l k key a e =
    rw (sym ((eq_iff l key).0 a)) (ground (arith, eq_iff k l, eq_iff l k, eq_refl l))

-- A value that was put is found; the other keys keep theirs.
pub map_get-map_put :
    (key k : String) (v : String) (m : StringMap)
    → map_get key (map_put k v m) ≡ (if k == key then some v else map_get key m)
unfolding map_get map_put
map_get-map_put key k v [] = refl
map_get-map_put key k v ((l, u) ∷ m) = elim (Bool-cases (l == k)) [
  | inl e ↦ rw e (rw ((eq_iff l k).0 e) (same (k == key)))
  | inr e ↦ rw e (rw (map_get-map_put key k v m) (other (Bool-cases (l == key)) e))
]
  where
    same :
        (b : Bool)
        → (if b then some v else map_get key m)
          ≡ (if b then some v else if b then some u else map_get key m)
    same true = refl
    same false = refl

    other :
        ((l == key) ≡ true) ⊎ ((l == key) ≡ false)
        → (l == k) ≡ false
        → (if l == key then some u else (if k == key then some v else map_get key m))
          ≡ (if k == key then some v else (if l == key then some u else map_get key m))
    other (inl a) e = rw a (rw (apart l k key a e) refl)
    other (inr a) e = rw a refl

-- The last entry with the key.
abbrev pub last_of : String → StringMap → Option String → Option String
last_of key [] o = o
last_of key ((k, v) ∷ m) o = last_of key m (if k == key then some v else o)

-- A merged map has for each key the last value that the second map has for it, and the value of
-- the first map for a key that the second lacks.
pub map_get-map_put_all :
    (key : String) (m other : StringMap)
    → map_get key (map_put_all m other) ≡ last_of key other (map_get key m)
unfolding map_put_all
map_get-map_put_all key m [] = refl
map_get-map_put_all key m ((k, v) ∷ other) =
    map_get-map_put_all key (map_put k v m) other
    ∙ ap (last_of key other) (map_get-map_put key k v m)
