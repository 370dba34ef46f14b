-- ===== src/CacheSync.antt =====
-- The worker that pulls exchanged entries from peers (src/cache_sync_worker.ts). `pull` and `push`
-- are the two functions of its options, `none` and `false` where they throw.
pub mod Cycle
use bit_relay.Prelude.{
  ℕ, ◌+◌, max, Bool, true, false, not, List, [], ◌∷◌, ◌++◌, Option, none, some, String, str_eq,
  if◌then◌else◌, ◌==◌, length, any,
}
use bit_relay.Map
use bit_relay.Map.{Map}
use bit_relay.Text.{trim, is_empty}
use bit_relay.Json.{Number, trunc_at_zero}
use bit_relay.Room.{includes}
use bit_relay.CacheExchange.{CacheExchangeEntry}

-- normalizePeers: the trimmed names, each once, with the names so far.
unfoldable pub normalize_peers : List String → List String → List String
unfolding trim
normalize_peers dedupe [] = dedupe
normalize_peers dedupe (peer ∷ raw) =
    let trimmed = trim peer in
    normalize_peers
      (if is_empty trimmed
        then dedupe
        else if includes dedupe trimmed
        then dedupe
        else dedupe ++ trimmed ∷ [])
      raw

abbrev pub to_cursor : Number → ℕ → ℕ
to_cursor (Number.finite negative whole fraction) fallback = trunc_at_zero negative whole
to_cursor _ fallback = fallback

pub record PullResult : Type 0 where
  pub entries : List CacheExchangeEntry
  pub next_cursor : Number

pub record SyncSummary : Type 0 where
  pub skipped : Bool
  pub processed_peers : ℕ
  pub pulled_entries : ℕ
  pub pushed_entries : ℕ
  pub failed_peers : List String

pub record Worker : Type 0 where
  pub cursors : Map ℕ
  pub in_flight : Bool

abbrev or_zero : Option ℕ → ℕ
or_zero none = 0
or_zero (some n) = n

unfoldable pub cursor_for : Map ℕ → String → ℕ
unfolding Map.get
cursor_for cursors peer = or_zero (Map.get peer cursors)

abbrev start_cursors : List String → Map ℕ
start_cursors [] = []
start_cursors (peer ∷ peers) = (peer, 0) ∷ start_cursors peers

unfoldable pub create_cache_sync_worker : List String → Worker
create_cache_sync_worker peers = record { cursors = start_cursors peers; in_flight = false }

abbrev pub nothing : Bool → SyncSummary
nothing skipped = record {
  skipped = skipped;
  processed_peers = 0;
  pulled_entries = 0;
  pushed_entries = 0;
  failed_peers = [];
}

abbrev pub fails : Map ℕ → SyncSummary → String → Map ℕ × SyncSummary
fails cursors summary peer =
    (cursors, record summary { failed_peers = summary.failed_peers ++ peer ∷ [] })

abbrev pub succeeds : Map ℕ → SyncSummary → String → PullResult → Map ℕ × SyncSummary
succeeds cursors summary peer pulled =
    let after = cursor_for cursors peer in
    let count = length pulled.entries in
    (
      Map.set peer (max after (to_cursor pulled.next_cursor after)) cursors,
      record summary {
        processed_peers = summary.processed_peers + 1;
        pulled_entries = summary.pulled_entries + count;
        pushed_entries = summary.pushed_entries + (if count == 0 then 0 else count);
      },
    )

module _ (pull : String → ℕ → Option PullResult)
    (push : String → List CacheExchangeEntry → Bool) where
  abbrev pub pulled_peer : Map ℕ → SyncSummary → String → Option PullResult → Map ℕ × SyncSummary
  pulled_peer cursors summary peer none = fails cursors summary peer
  pulled_peer cursors summary peer (some pulled) =
      if length pulled.entries == 0
      then succeeds cursors summary peer pulled
      else if push peer pulled.entries
      then succeeds cursors summary peer pulled
      else fails cursors summary peer

  -- The body of the loop over the peers.
  unfoldable pub sync_peer : Map ℕ → SyncSummary → String → Map ℕ × SyncSummary
  unfolding cursor_for Map.set
  sync_peer cursors summary peer =
      pulled_peer cursors summary peer (pull peer (cursor_for cursors peer))

  unfoldable pub sync_peers : Map ℕ → SyncSummary → List String → Map ℕ × SyncSummary
  unfolding sync_peer
  sync_peers cursors summary [] = (cursors, summary)
  sync_peers cursors summary (peer ∷ peers) =
      let (cursors', summary') = sync_peer cursors summary peer in
      sync_peers cursors' summary' peers

  unfoldable pub sync_once : Worker → List String → Worker × SyncSummary
  unfolding sync_peers
  sync_once w peers =
      if w.in_flight
      then (w, nothing true)
      else let (cursors, summary) = sync_peers w.cursors (nothing false) peers in
        (record { cursors = cursors; in_flight = false }, summary)
