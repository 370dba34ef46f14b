-- ===== src/Tests/Restore.antt =====
-- A snapshot of a small relay and its restoring (src/memory_handler.ts).
use bit_relay.Prelude.{inr, ◌≡◌, refl, true, [], ◌∷◌, none, some, arith}
use bit_relay.Map
use bit_relay.Text.{trim, trim_start, trim_end, matches_name, every_char, utf16_length}
use bit_relay.Json.{null, str, obj, end}
use bit_relay.Room.{Envelope, RoomState, approve, is_valid_topic, is_valid_room_name}
use bit_relay.Identity.{active}
use bit_relay.Relay.{Relay}
use bit_relay.Relay.Invariant.{IsRelay}
use bit_relay.Relay.Rooms.{is_valid_pr_id}
use bit_relay.Relay.Snapshot.{snapshot}
use bit_relay.Relay.Restore.{restore}
use bit_relay.Relay.Restore.RoundTrip.{IsStorable, restore-relay_snapshot}
use bit_relay.Relay.Restore.Same.{SameRelay}
use bit_relay.Relay.Restore.Bounds.{IsRestored, restore-IsRestored}
use bit_relay.Tests.Relay.{options, start}

abbrev hello : Envelope
hello = record {
  room = "main";
  id = "m1";
  sender = "ann";
  topic = "notify";
  payload = str "hi";
  signature = some "sig";
}

abbrev main : RoomState
main = record {
  messages = hello ∷ [];
  acks_by_consumer = ("bob", "m1" ∷ []) ∷ [];
  sessions = ("s1", record { is_open = true; last_active = 5 }) ∷ [];
  presence_by_participant =
      (
        "bob",
        record { participant_id = "bob"; status = "away"; metadata = null; last_heartbeat = 990 },
      )
      ∷ [];
  reviews_by_pr =
      (
        "pr1",
        ("ann", record { sender = "ann"; verdict = approve; submitted_at = 5; updated_at = 6 })
            ∷ [],
      )
      ∷ [];
}

abbrev running : Relay
running = record start {
  rooms = ("main", main) ∷ [];
  exchange = record {
    records =
        record { cursor = 1; envelope = hello; origin = "near"; hop_count = 0; max_hops = 3 } ∷ [];
    cursor = 1;
  };
  identity = record {
    key_registry =
        (
          "ann",
          record {
            public_key = "key";
            status = active;
            first_seen_at = 1;
            last_seen_at = 2;
            rotated_at = none;
            revoked_at = none;
            github_username = some "ann";
            github_verified_at = some 3;
          },
        )
        ∷ [];
    nonces_by_sender = ("ann", ("10", 995) ∷ ("9", 996) ∷ []) ∷ ("bob", []) ∷ [];
  };
}

running-IsRelay : IsRelay options running
unfolding Map.get is_valid_topic is_valid_room_name matches_name every_char utf16_length
running-IsRelay = record {
  distinct = (refl, tt);
  rooms = (
    record {
      name = refl;
      room = record { ids = (refl, tt); topics = (refl, tt); within = omega arith };
      own = (refl, tt);
    },
    tt,
  );
  exchange = ((omega arith, omega arith), omega arith);
  records = ((omega arith, inr refl), tt);
  engine = ((tt, omega arith), (tt, refl, tt, omega arith));
}

running-IsStorable : IsStorable options 1000 running
unfolding Map.get trim trim_start trim_end is_valid_topic is_valid_room_name is_valid_pr_id
    matches_name every_char utf16_length
running-IsStorable = record {
  own_rooms = refl;
  rooms = (
    record {
      messages = ((refl, refl), tt);
      consumers = (refl, tt);
      own_consumers = refl;
      acks = (((refl, refl), refl, tt), tt);
      participants = (refl, tt);
      presence = ((refl, (refl, refl), omega arith), tt);
      requests = (refl, tt);
      reviews = (
        record {
          pr_id = (refl, refl);
          valid = refl;
          reviewed = cc;
          senders = (refl, tt);
          reviews = ((refl, (refl, refl)), tt);
        },
        tt,
      );
    },
    tt,
  );
  identity = record {
    senders = (refl, tt);
    own_senders = refl;
    keys = ((refl, (refl, refl)), tt);
    nonce_senders = (refl, (refl, tt));
    own_nonce_senders = refl;
    nonces = (
      ((refl, (refl, tt)), refl, ((refl, omega arith), ((refl, omega arith), tt))),
      ((tt, refl, tt), tt),
    );
  };
  records = (
    record {
      origin = (refl, refl);
      room = refl;
      id = refl;
      sender = refl;
      topic = refl;
      cursor = omega arith;
      max_hops = omega arith;
    },
    tt,
  );
  recorded = omega arith;
  own_deliveries = refl;
  deliveries = tt;
  dlq = tt;
}

restore-relay_snapshot_example :
    let after = restore options 1000 (obj (snapshot end running)) start in
    SameRelay running after
    × (after ≡ record start {
      rooms = after.rooms;
      identity = after.identity;
      exchange = after.exchange;
      github_issue_sync = after.github_issue_sync;
    })
restore-relay_snapshot_example =
    restore-relay_snapshot options 1000 end running running-IsRelay running-IsStorable start

restore-IsRestored_example :
    IsRestored options (restore options 1000 (obj (snapshot end running)) start)
restore-IsRestored_example = restore-IsRestored options 1000 (obj (snapshot end running)) start
