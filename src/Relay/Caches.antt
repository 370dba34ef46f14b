-- ===== src/Relay/Caches.antt =====
-- handleCacheExchangeDiscovery, handleCacheIssuePull and handleCacheIssueSync (src/memory_handler.ts).
-- The reads of the cache adapter are an interface.
use bit_relay.Prelude.{ℕ, not, List, map, String, str_eq}
use bit_relay.Http.{Platform, Request, normalize_limit, normalize_after, auth_refused}
use bit_relay.Room.{Envelope, SanitizedEnvelope, sanitize_envelope}
use bit_relay.Relay.{RelayOptions, Response, discovery_body, issues_body, issue_sync_body}
use bit_relay.Relay.Action.{Action, ◌>>=◌, ◌>>◌, pure, raise_if}
use bit_relay.Relay.Rooms.{open_room}

pub record IssuePull : Type 0 where
  pub next_cursor : ℕ
  pub envelopes : List Envelope

-- Events and snapshots by their issue.
pub record IssueSyncPage : Type 0 where
  pub next_cursor : ℕ
  pub room_cursor : ℕ
  pub events : List (String × Envelope)
  pub snapshots : List (String × Envelope)

-- `pullIssues` and `syncIssues` of the RelayCacheAdapter.
pub record IssueReads : Type 0 where
  pub pull_issues : (room : String) (after limit : ℕ) → IssuePull
  pub sync_issues : (room : String) (after limit snapshot_limit : ℕ) → IssueSyncPage

abbrev pub sanitize_record : String × Envelope → String × SanitizedEnvelope
sanitize_record (issue_id, e) = (issue_id, sanitize_envelope e)

module _ (p : Platform) (o : RelayOptions) where
  unfoldable pub handle_cache_exchange_discovery : Request → Action Response
  unfolding auth_refused
  handle_cache_exchange_discovery q = do
    raise_if (not (str_eq q.method "GET")) 405 "method not allowed"
    raise_if (auth_refused o.peer_auth_token q) 401 "unauthorized"
    pure (record {
      status = 200;
      body = discovery_body o.relay_node_id o.peer_relay_urls o.cache_exchange_max_hops;
    })

  module _ (reads : IssueReads) where
    abbrev pub pull_response : String → IssuePull → Response
    pull_response room page = record {
      status = 200;
      body = issues_body room page.next_cursor (map sanitize_envelope page.envelopes);
    }

    unfoldable pub handle_cache_issue_pull : Request → Action Response
    unfolding auth_refused normalize_after normalize_limit
    handle_cache_issue_pull q = do
      raise_if (not (str_eq q.method "GET")) 405 "method not allowed"
      raise_if (auth_refused o.peer_auth_token q) 401 "unauthorized"
      room ← open_room p o q
      pure (
          pull_response room (
            reads.pull_issues room (normalize_after (q.query "after") 0)
              (normalize_limit (q.query "limit") 100)))

    abbrev pub sync_response : String → IssueSyncPage → Response
    sync_response room page = record {
      status = 200;
      body =
          issue_sync_body room page.next_cursor page.room_cursor (map sanitize_record page.events)
            (map sanitize_record page.snapshots);
    }

    unfoldable pub handle_cache_issue_sync : Request → Action Response
    unfolding auth_refused normalize_after normalize_limit
    handle_cache_issue_sync q = do
      raise_if (not (str_eq q.method "GET")) 405 "method not allowed"
      raise_if (auth_refused o.peer_auth_token q) 401 "unauthorized"
      room ← open_room p o q
      pure (
          sync_response room (
            reads.sync_issues room (normalize_after (q.query "after") 0)
              (normalize_limit (q.query "limit") 100)
              (normalize_limit (q.query "snapshot_limit") 100)))
