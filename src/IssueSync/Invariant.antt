-- ===== src/IssueSync/Invariant.antt =====
-- What every operation of the engine keeps (src/issue_sync_engine.ts).
use bit_relay.Prelude.{
  Option-cases, inr, inl, ℕ, zero, suc, ◌-◌, ◌≤◌, ◌≡◌, refl, sym, ap, ◌∙◌, false, List, [], ◌∷◌,
  String, eq_iff, arith, length, drop, length-drop, All, leb, ltb, Bool-cases,
}
use bit_relay.Map
use bit_relay.Map.{Map}
use bit_relay.Map.Keys.{
  keys-set_new, keys-set_old, length-keys, drop-Distinct, delete-oldest, set-All, delete-All,
}
use bit_relay.Text.{is_empty, remove_first}
use bit_relay.Room.Log.{drop-All}
use bit_relay.IssueSync.{
  order_with, DlqEntry, EngineOptions, Engine, EnqueueArgs, evict_keys, shift_dlq,
  remember_delivery_id, remove_dlq, enqueue_dlq, entry_of, with_order,
}

-- An entry stands under its own id, which is not empty.
abbrev pub IsFiled : String × DlqEntry → Type 0
IsFiled (id, entry) = (entry.delivery_id ≡ id) × (is_empty id ≡ false)

-- The deliveries are distinct and bounded; the queue is the map of its entries in the order of
-- their arrival, bounded, and each entry stands under its own id.
abbrev pub IsDeliveries : EngineOptions → Map ℕ → Type 0
IsDeliveries o ids = Map.Distinct ids × (length ids ≤ o.max_delivery_ids)

abbrev pub IsQueue : EngineOptions → Map DlqEntry → List String → Type 0
IsQueue o dlq order =
    Map.Distinct dlq × (order ≡ Map.keys dlq) × All IsFiled dlq × (length dlq ≤ o.max_dlq_entries)

abbrev pub IsEngine : EngineOptions → Engine → Type 0
IsEngine o e = IsDeliveries o e.delivery_ids × IsQueue o e.dlq e.dlq_order

pub evict_keys-eq-drop {ℓ} :
    {V : Type ℓ} (n : ℕ) (m : Map V) → Map.Distinct m → evict_keys n m ≡ drop n m
unfolding evict_keys
evict_keys-eq-drop zero m d = refl
evict_keys-eq-drop (suc n) [] d = refl
evict_keys-eq-drop (suc n) ((k, v) ∷ m) d = rw (delete-oldest k v m d) (evict_keys-eq-drop n m d.1)

pub shift_dlq-eq-drop :
    (n : ℕ) (m : Map DlqEntry)
    → Map.Distinct m
    → All IsFiled m
    → shift_dlq n (Map.keys m) m ≡ (Map.keys (drop n m), drop n m)
unfolding shift_dlq
shift_dlq-eq-drop zero m d h = refl
shift_dlq-eq-drop (suc n) [] d h = refl
shift_dlq-eq-drop (suc n) ((k, v) ∷ m) d h =
    rw (h.0.1, delete-oldest k v m d) (shift_dlq-eq-drop n m d.1 h.1)

remove_first-keys {ℓ} :
    {V : Type ℓ} (k : String) (m : Map V)
    → Map.Distinct m
    → remove_first k (Map.keys m) ≡ Map.keys (Map.delete k m)
unfolding remove_first Map.delete
remove_first-keys k [] d = refl
remove_first-keys k ((j, w) ∷ m) d =
    ground (arith, remove_first-keys k m d.1, Map.delete_absent j m, eq_iff j k)

module _ (o : EngineOptions) where
  pub remember-IsEngine :
      (e : Engine) (id : String) (ts : ℕ)
      → IsEngine o e
      → IsEngine o (remember_delivery_id o e id ts)
  unfolding remember_delivery_id
  remember-IsEngine e id ts ((d, b), q) =
      let ids = Map.set id ts e.delivery_ids in
      let distinct = Map.set-Distinct id ts e.delivery_ids d in
      let over = length ids - o.max_delivery_ids in
      elim (Bool-cases (leb (length ids) o.max_delivery_ids)) [
        | inl fits ↦ rw fits ((distinct, ground arith), q)
        | inr more ↦
            rw (more, evict_keys-eq-drop over ids distinct)
              ((drop-Distinct over ids distinct, omega (arith, length-drop over ids)), q)
      ]

  pub remove-IsEngine : (e : Engine) (id : String) → IsEngine o e → IsEngine o (remove_dlq e id)
  unfolding remove_dlq
  remove-IsEngine e id (ids, (d, order, filed, bound)) = elim (Bool-cases (Map.has id e.dlq)) [
    | inl there ↦ rw there (
      ids,
      (
        Map.delete-Distinct id e.dlq d,
        ap (remove_first id) order ∙ remove_first-keys id e.dlq d,
        delete-All IsFiled id e.dlq filed,
        omega (arith, Map.length-delete-le id e.dlq),
      ),
    )
    | inr absent ↦ rw absent (ids, (d, order, filed, bound))
  ]

  with_order-IsEngine :
      (e : Engine) (dlq : Map DlqEntry)
      → IsDeliveries o e.delivery_ids
      → Map.Distinct dlq
      → All IsFiled dlq
      → IsEngine o (with_order o e dlq (Map.keys dlq))
  unfolding with_order
  with_order-IsEngine e dlq ids d filed =
      let order = Map.keys dlq in
      let over = length order - o.max_dlq_entries in
      let size = length-keys dlq in
      elim (Bool-cases (ltb o.max_dlq_entries (length order))) [
        | inl more ↦
            rw (more, shift_dlq-eq-drop over dlq d filed)
              (
                ids,
                (
                  drop-Distinct over dlq d,
                  refl,
                  drop-All IsFiled over dlq filed,
                  omega (arith, length-drop over dlq, size),
                ),
              )
        | inr fits ↦ rw fits (ids, (d, refl, filed, ground (arith, size)))
      ]

  pub order_with-keys :
      (id : String) (entry : DlqEntry) (dlq : Map DlqEntry)
      → order_with (Map.get id dlq) (Map.keys dlq) id ≡ Map.keys (Map.set id entry dlq)
  order_with-keys id entry dlq = elim (Option-cases (Map.get id dlq)) [
    | inl absent ↦ rw absent (sym (keys-set_new id entry dlq absent))
    | inr (old, there) ↦ rw there (sym (keys-set_old id entry old dlq there))
  ]

  -- An enqueued entry files its delivery, which has an id.
  pub enqueue-IsEngine :
      (e : Engine) (args : EnqueueArgs) (now : ℕ)
      → IsEngine o e
      → is_empty args.delivery_id ≡ false
      → IsEngine o (enqueue_dlq o e args now).0
  unfolding enqueue_dlq
  enqueue-IsEngine e args now (ids, (d, order, filed, bound)) h =
      let id = args.delivery_id in
      let entry = entry_of o args (Map.get id e.dlq) now in
      let dlq = Map.set id entry e.dlq in
      let keys : order_with (Map.get id e.dlq) e.dlq_order id ≡ Map.keys dlq =
        rw order (order_with-keys id entry e.dlq) in
      rw keys (
        with_order-IsEngine e dlq ids (Map.set-Distinct id entry e.dlq d)
          (set-All IsFiled id entry e.dlq (refl, h) filed))
