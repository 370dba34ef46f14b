-- ===== src/CacheSync/Cycle.antt =====
-- What one cycle over the peers does (src/cache_sync_worker.ts).
use bit_relay.Prelude.{
  ℕ, ◌+◌, ◌≤◌, max, ◌≡◌, refl, Bool, true, false, List, [], ◌∷◌, Option, none, some, String, eq_iff,
  if◌then◌else◌, ◌==◌, length, length-append, arith, Bool-cases, inl, inr, ◌⊎◌,
}
use bit_relay.Map
use bit_relay.Map.{Map}
use bit_relay.CacheExchange.{CacheExchangeEntry}
use bit_relay.CacheSync.{
  PullResult, SyncSummary, Worker, cursor_for, fails, succeeds, pulled_peer, sync_peer, sync_peers,
  sync_once, nothing, to_cursor,
}

-- Peers are processed or failed, and what is pulled is pushed.
abbrev pub Accounts : ℕ → SyncSummary → Type 0
Accounts peers summary =
    (summary.processed_peers + length summary.failed_peers ≡ peers)
    × (summary.pulled_entries ≡ summary.pushed_entries)

cursor_for-set :
    (cursors : Map ℕ) (peer other : String) (n : ℕ)
    → cursor_for cursors peer ≤ n
    → cursor_for cursors other ≤ cursor_for (Map.set peer n cursors) other
unfolding cursor_for
cursor_for-set cursors peer other n le =
    ground (arith, Map.get-set peer other n cursors, eq_iff peer other)

choice {ℓ} :
    {A : Type ℓ} (b c : Bool) (x y : A)
    → ((if b then x else if c then x else y) ≡ x) ⊎ ((if b then x else if c then x else y) ≡ y)
choice true c x y = inl refl
choice false true x y = inl refl
choice false false x y = inr refl

module _ (pull : String → ℕ → Option PullResult)
    (push : String → List CacheExchangeEntry → Bool) where
  succeeds-Accounts :
      (cursors : Map ℕ) (s : SyncSummary) (peer : String) (pulled : PullResult) (n : ℕ)
      → Accounts n s
      → Accounts (n + 1) (succeeds cursors s peer pulled).1
  succeeds-Accounts cursors s peer pulled n (count, same) = (omega arith, ground arith)

  fails-Accounts :
      (cursors : Map ℕ) (s : SyncSummary) (peer : String) (n : ℕ)
      → Accounts n s
      → Accounts (n + 1) (fails cursors s peer).1
  fails-Accounts cursors s peer n (count, same) =
      (omega (arith, length-append s.failed_peers (peer ∷ [])), same)

  -- What holds of a peer's pull in both outcomes, and where both are pushed or nothing is to push.
  sync_peer-Accounts :
      (cursors : Map ℕ) (s : SyncSummary) (peer : String) (n : ℕ)
      → Accounts n s
      → Accounts (n + 1) (sync_peer pull push cursors s peer).1
  unfolding sync_peer
  sync_peer-Accounts cursors s peer n h = go (pull peer (cursor_for cursors peer))
    where
      go : (r : Option PullResult) → Accounts (n + 1) (pulled_peer pull push cursors s peer r).1
      go none = fails-Accounts cursors s peer n h
      go (some pulled) =
          elim (choice (length pulled.entries == 0) (push peer pulled.entries)
            (succeeds cursors s peer pulled) (fails cursors s peer)) [
              | inl done ↦ rw done (succeeds-Accounts cursors s peer pulled n h)
              | inr failed ↦ rw failed (fails-Accounts cursors s peer n h)
            ]

  sync_peer-rises :
      (cursors : Map ℕ) (s : SyncSummary) (peer other : String)
      → cursor_for cursors other ≤ cursor_for (sync_peer pull push cursors s peer).0 other
  unfolding sync_peer
  sync_peer-rises cursors s peer other = go (pull peer (cursor_for cursors peer))
    where
      go :
          (r : Option PullResult)
          → cursor_for cursors other ≤ cursor_for (pulled_peer pull push cursors s peer r).0 other
      go none = omega arith
      go (some pulled) =
          let after = cursor_for cursors peer in
          let n = max after (to_cursor pulled.next_cursor after) in
          ground (arith, cursor_for-set cursors peer other n (omega arith))

  sync_peers-cycle :
      (cursors : Map ℕ) (s : SyncSummary) (peers : List String) (n : ℕ) (other : String)
      → Accounts n s
      → Accounts (n + length peers) (sync_peers pull push cursors s peers).1
        × (cursor_for cursors other ≤ cursor_for (sync_peers pull push cursors s peers).0 other)
  unfolding sync_peers
  sync_peers-cycle cursors s [] n other h = ((omega (arith, h.0), h.1), omega arith)
  sync_peers-cycle cursors s (peer ∷ peers) n other h =
      let (cursors', s') = sync_peer pull push cursors s peer in
      let (accounts, rises) =
        sync_peers-cycle cursors' s' peers (n + 1) other (sync_peer-Accounts cursors s peer n h) in
      let rise = sync_peer-rises cursors s peer other in
      ((omega (arith, accounts.0), accounts.1), omega (arith, rise, rises))

  -- A cycle that is not skipped counts each peer once, as processed or as failed, and pushes as many
  -- entries as it pulls from those processed; no cursor ever goes back, in any cycle.
  pub sync_once-cycle :
      (w : Worker) (peers : List String) (peer : String)
      → ((w.in_flight ≡ true) ⊎ Accounts (length peers) (sync_once pull push w peers).1)
        × (cursor_for w.cursors peer ≤ cursor_for (sync_once pull push w peers).0.cursors peer)
  unfolding sync_once
  sync_once-cycle w peers peer = elim (Bool-cases w.in_flight) [
    | inl busy ↦ rw busy (inl refl, omega arith)
    | inr idle ↦
        let cycle = sync_peers-cycle w.cursors (nothing false) peers 0 peer (omega arith, refl) in
        rw idle (inr (omega (arith, cycle.0.0), cycle.0.1), cycle.1)
  ]
