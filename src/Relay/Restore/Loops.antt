-- ===== src/Relay/Restore/Loops.antt =====
-- The loops of a restore (src/memory_handler.ts) over what a snapshot wrote.
use bit_relay.Prelude.{
  ◌≡◌, refl, sym, ◌∙◌, ap, subst, List, [], ◌∷◌, ◌++◌, Option, some, String, All, append_assoc,
  append-nil,
}
use bit_relay.Map
use bit_relay.Map.{Map}
use bit_relay.Map.Keys.{set_new}
use bit_relay.Map.Listed.{listed, listed-All, listed-Distinct, map_values, map_values-Distinct}
use bit_relay.Json.{Json, items, entries}
use bit_relay.IssueSync.RoundTrip.{append-absent}
use bit_relay.Relay.Snapshot.{to_items, to_fields, values}
use bit_relay.Relay.StoredRooms.{put_all, read_all}

-- A reader takes each of the values for the thing at its place.
abbrev pub Reads : {A B : Type 0} → (A → Option B) → List A → List B → Type 0
Reads f [] [] = Unit
Reads f (a ∷ more) (b ∷ bs) = (f a ≡ some b) × Reads f more bs
Reads f _ _ = ⊥

pub read_all-Reads :
    {A B : Type 0} (f : A → Option B) (more : List A) (bs : List B)
    → Reads f more bs
    → read_all f more ≡ bs
unfolding read_all
read_all-Reads f [] [] h = refl
read_all-Reads f [] (b ∷ bs) h = absurd h
read_all-Reads f (a ∷ more) [] h = absurd h
read_all-Reads f (a ∷ more) (b ∷ bs) (here, rest) =
    rw (here, read_all) (ap (◌∷◌ b) (read_all-Reads f more bs rest))

pub put_all-Reads :
    {A V : Type 0} (f : A → Option (String × V)) (more : List A) (m acc : Map V)
    → Reads f more m
    → Map.Distinct (acc ++ m)
    → put_all f more acc ≡ acc ++ m
unfolding put_all
put_all-Reads f [] [] acc h d = sym (append-nil acc)
put_all-Reads f [] (b ∷ bs) acc h d = absurd h
put_all-Reads f (a ∷ more) [] acc h d = absurd h
put_all-Reads f (a ∷ more) ((k, v) ∷ m) acc (here, rest) d =
    let shifted = append_assoc acc ((k, v) ∷ []) m in
    rw (here, put_all, set_new k v acc (append-absent k v acc m d))
      (put_all-Reads f more m (acc ++ (k, v) ∷ []) rest (subst Map.Distinct (sym shifted) d)
        ∙ shifted)

pub items-Reads :
    {B : Type 0} (f : Json → Option B) (h : B → Json) (bs : List B)
    → All (λ b. f (h b) ≡ some b) bs
    → Reads f (items (to_items h bs)) bs
items-Reads f h [] all = tt
items-Reads f h (b ∷ bs) (here, all) = (here, items-Reads f h bs all)

pub fields-Reads :
    {V W : Type 0} (f : String × Json → Option (String × W)) (h : V → Json) (g : V → W) (m : Map V)
    → All (λ e. f (e.0, h e.1) ≡ some (e.0, g e.1)) m
    → Reads f (entries (to_fields h m)) (map_values g m)
fields-Reads f h g [] all = tt
fields-Reads f h g ((k, v) ∷ m) (here, all) = (here, fields-Reads f h g m all)

-- The object that a map of things was written to is read back as it is listed.
pub put_all-listed :
    {V W : Type 0} (f : String × Json → Option (String × W)) (h : V → Json) (g : V → W) (m : Map V)
    → Map.Distinct m
    → All (λ e. f (e.0, h e.1) ≡ some (e.0, g e.1)) m
    → put_all f (entries (to_fields h (listed m))) [] ≡ map_values g (listed m)
put_all-listed f h g m d all =
    put_all-Reads f (entries (to_fields h (listed m))) (map_values g (listed m)) []
      (fields-Reads f h g (listed m) (listed-All (λ e. f (e.0, h e.1) ≡ some (e.0, g e.1)) m all))
      (map_values-Distinct g (listed m) (listed-Distinct m d))

pub map_values_id {ℓ} : {V : Type ℓ} (m : Map V) → map_values (λ v. v) m ≡ m
map_values_id [] = refl
map_values_id ((k, v) ∷ m) = ap (◌∷◌ (k, v)) (map_values_id m)

pub values-Reads :
    {V : Type 0} (f : Json → Option (String × V)) (h : V → Json) (m : Map V)
    → All (λ e. f (h e.1) ≡ some e) m
    → Reads f (items (to_items h (values m))) m
values-Reads f h [] all = tt
values-Reads f h ((k, v) ∷ m) (here, all) = (here, values-Reads f h m all)

pub All-map {ℓ κ} :
    {A : Type ℓ} {P Q : A → Type κ} (f : (a : A) → P a → Q a) (xs : List A) → All P xs → All Q xs
All-map f [] all = tt
All-map f (x ∷ xs) (here, all) = (f x here, All-map f xs all)
