-- ===== src/IssueCache/Cursors.antt =====
-- The cursors of issue events (nextIssueCursor and persistEnvelope, src/relay_cache_adapter.ts) rise,
-- whatever the store answers and wherever it throws.
use bit_relay.Prelude.{
  ℕ, ◌+◌, ◌-◌, ◌≤◌, ◌<◌, ◌≡◌, refl, subst, ◌∙◌, ap, max, zero, suc, Bool, true, false, List, [],
  ◌∷◌, Option, some, String, str_eq, arith, eq_iff, eq_refl, Bool-cases, Option-cases, inl, inr,
  if◌then◌else◌,
}
use bit_relay.Map
use bit_relay.Map.{Map, get-set, get-set_self}
use bit_relay.Http.{Platform}
use bit_relay.Room.{Envelope}
use bit_relay.CacheStore.{object}
use bit_relay.IssueProjection.{is_issue_topic, issue_cursor_storage_key}
use bit_relay.IssueCache.{
  Cache, Adapter, AdapterOptions, Persist, ◌>>=◌, pure, cursor_in_memory, cursor_of_lookup, or_zero,
}
use bit_relay.IssueCache.Writes.{
  current_issue_cursor, next_issue_cursor, allocate, put_cache_json_object, read_should_update,
  put_snapshot, persist_issue_projection_to_cache, project_issue, persist_task, run_task,
  persist_envelope,
}

-- No room's cursor falls.
abbrev pub Rises : {S : Type 0} → Adapter S → Adapter S → Type 0
Rises s s' = (room : String) → cursor_in_memory room s ≤ cursor_in_memory room s'

-- A call of persistEnvelope and its time.
pub record PersistCall : Type 0 where
  pub envelope : Envelope
  pub room_cursor_hint : Option ℕ
  pub now : ℕ

module _ {S : Type 0} (cache : Cache S) where
  set-in_memory :
      (name room : String) (n : ℕ) (m : Map ℕ) (store : S)
      → cursor_in_memory room (record { issue_cursor_by_room = Map.set name n m; store = store })
        ≡ (if str_eq name room then n else or_zero (Map.get room m))
  unfolding cursor_in_memory
  set-in_memory name room n m store =
      ap or_zero (get-set name room n m)
      ∙ elim (Bool-cases (str_eq name room)) [ inl same ↦ rw same refl | inr other ↦ rw other refl ]

  -- The cursor that is allocated is the room's from then on, and above the one before.
  pub next-cursor :
      (room : String) (hint : Option ℕ) (s : Adapter S)
      → (cursor_in_memory room s < (next_issue_cursor cache room hint s).1)
        × (cursor_in_memory room (next_issue_cursor cache room hint s).0
            ≡ (next_issue_cursor cache room hint s).1)
  unfolding next_issue_cursor current_issue_cursor
  next-cursor room hint s =
      let (store, cached) = cache.get s.store object (issue_cursor_storage_key room) in
      let current = max (cursor_in_memory room s) (cursor_of_lookup room cached) in
      (
        omega arith,
        set-in_memory room room _ (Map.set room current s.issue_cursor_by_room) store
            ∙ rw (eq_refl room) refl,
      )

  get_other :
      (name room : String) (n : ℕ) (m : Map ℕ)
      → str_eq name room ≡ false
      → Map.get room (Map.set name n m) ≡ Map.get room m
  get_other name room n m apart =
      get-set name room n m ∙ ap (λ b. if b then some n else Map.get room m) apart

  next-Rises :
      (room : String) (hint : Option ℕ) (s : Adapter S)
      → Rises s (next_issue_cursor cache room hint s).0
  unfolding next_issue_cursor current_issue_cursor cursor_in_memory
  next-Rises room hint s other =
      let (store, cached) = cache.get s.store object (issue_cursor_storage_key room) in
      let current = max (cursor_in_memory room s) (cursor_of_lookup room cached) in
      let next = max current (or_zero hint - 1) + 1 in
      let mid = Map.set room current s.issue_cursor_by_room in
      elim (Bool-cases (str_eq room other)) [
        | inl same ↦
            let named : room ≡ other = (eq_iff room other).0 same in
            subst
              (λ r.
                cursor_in_memory r s ≤ cursor_in_memory r (next_issue_cursor cache room hint s).0)
              named (omega (arith, (next-cursor room hint s).0, (next-cursor room hint s).1))
        | inr apart ↦
            let kept : or_zero (Map.get other (Map.set room next mid))
                ≡ or_zero (Map.get other s.issue_cursor_by_room) =
              ap or_zero (
                get_other room other next mid apart
                ∙ get_other room other current s.issue_cursor_by_room apart) in
            omega (arith, kept)
      ]

  -- A step that lets no cursor fall.
  record IsRising {A : Type 0} (m : Persist S A) : Type 0 where
    rises : (s : Adapter S) → Rises s (m s).0

  -- A step that leaves the cursors alone.
  same-IsRising :
      {A : Type 0} (m : Persist S A)
      → ((s : Adapter S) → (m s).0.issue_cursor_by_room ≡ s.issue_cursor_by_room)
      → IsRising m
  unfolding cursor_in_memory
  same-IsRising m same = record {
    rises = λ s room. let kept = ap (λ q. or_zero (Map.get room q)) (same s) in omega (arith, kept);
  }

  bind-IsRising :
      {A B : Type 0} (m : Persist S A) (k : A → Persist S B)
      → IsRising m
      → ((a : A) → IsRising (k a))
      → IsRising (m >>= k)
  unfolding ◌>>=◌
  bind-IsRising m k first later = record {
    rises = λ s room. elim (Option-cases (m s).1) [
      | inl thrown ↦ rw (◌>>=◌, thrown) (first.rises s room)
      | inr (a, went) ↦
          rw (◌>>=◌, went) (omega (arith, first.rises s room, (later a).rises (m s).0 room))
    ];
  }

  run-IsRising :
      (retries : ℕ) (task : Persist S (Unit {0}))
      → IsRising task
      → (s : Adapter S) → Rises s (run_task retries task s)
  unfolding run_task
  run-IsRising zero task rising s room = rising.rises s room
  run-IsRising (suc retries) task rising s room = elim (Option-cases (task s).1) [
    | inr (done, went) ↦ rw (run_task, went) (rising.rises s room)
    | inl thrown ↦
        rw (run_task, thrown)
          (omega (arith, rising.rises s room, run-IsRising retries task rising (task s).0 room))
  ]

  module _ (p : Platform) (o : AdapterOptions) where
    snapshot-IsRising :
        (now : ℕ) (envelope : Envelope) (issue_id : String) (time : Option ℕ) (cursor : ℕ)
        (update : Bool)
        → IsRising (put_snapshot cache p o now envelope issue_id time cursor update)
    unfolding put_snapshot pure put_cache_json_object
    snapshot-IsRising now envelope issue_id time cursor false = same-IsRising _ λ s. refl
    snapshot-IsRising now envelope issue_id time cursor true = same-IsRising _ λ s. refl

    project-IsRising :
        (now : ℕ) (is_issue : Bool) (envelope : Envelope) (hint : Option ℕ)
        → IsRising (project_issue cache p o now is_issue envelope hint)
    unfolding project_issue persist_issue_projection_to_cache read_should_update allocate pure
        put_cache_json_object
    project-IsRising now false envelope hint = same-IsRising _ λ s. refl
    project-IsRising now true envelope hint =
        bind-IsRising _ _ (record { rises = next-Rises envelope.room hint })
          λ cursor. bind-IsRising _ _ (same-IsRising _ λ s. refl) λ _.
            bind-IsRising _ _ (same-IsRising _ λ s. refl) λ update.
              bind-IsRising _ _ (snapshot-IsRising now envelope _ _ cursor update)
                λ _. same-IsRising _ λ s. refl

    task-IsRising :
        (now : ℕ) (envelope : Envelope) (hint : Option ℕ)
        → IsRising (persist_task cache p o now envelope hint)
    unfolding persist_task put_cache_json_object
    task-IsRising now envelope hint =
        bind-IsRising _ _ (same-IsRising _ λ s. refl)
          λ _. project-IsRising now (is_issue_topic envelope.topic) envelope hint

    abbrev pub persist_all : List PersistCall → Adapter S → Adapter S
    unfolding persist_envelope
    persist_all [] s = s
    persist_all (c ∷ calls) s =
        persist_all calls (persist_envelope cache p o c.now c.envelope c.room_cursor_hint s)

    pub persist_all-Rises :
        (calls : List PersistCall) (s : Adapter S) → Rises s (persist_all calls s)
    unfolding persist_all persist_envelope
    persist_all-Rises [] s room = omega arith
    persist_all-Rises (c ∷ calls) s room = omega (
      arith,
      run-IsRising o.max_retries _ (task-IsRising c.now c.envelope c.room_cursor_hint) s room,
      persist_all-Rises calls (persist_envelope cache p o c.now c.envelope c.room_cursor_hint s)
          room,
    )

    -- Of two cursors that are allocated for a room's issues the later one is greater, whatever was
    -- persisted in between, with whatever hints, and whatever the store answered or threw. So no two
    -- events of a room share a cursor.
    pub next_issue_cursor-rises :
        (room : String) (hint hint' : Option ℕ) (calls : List PersistCall) (s : Adapter S)
        → (next_issue_cursor cache room hint s).1
          < (next_issue_cursor cache room hint'
              (persist_all calls (next_issue_cursor cache room hint s).0)).1
    next_issue_cursor-rises room hint hint' calls s =
        let s' = (next_issue_cursor cache room hint s).0 in
        omega (
          arith,
          (next-cursor room hint s).1,
          persist_all-Rises calls s' room,
          (next-cursor room hint' (persist_all calls s')).0,
        )
