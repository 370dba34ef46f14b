-- ===== src/Tests/Affinity.antt =====
-- Two repositories (src/repository_affinity.ts).
use bit_relay.Prelude.{◌≡◌, refl, ◌∷◌, [], none, some}
use bit_relay.RepositoryAffinity.{Texts, RelayRepositoryIdentity, decide_repository_compatibility}
use bit_relay.RepositoryAffinity.Agreement.{decide_sym}

abbrev plain : Texts
plain = record { to_lower_case = λ s. s; parse_url = λ s. none }

abbrev ours : RelayRepositoryIdentity
ours = record {
  repo_id = some "ann/bit";
  owner = some "ann";
  name = some "bit";
  recent_commits = "0123abc" ∷ "4567def" ∷ [];
}

abbrev theirs : RelayRepositoryIdentity
theirs = record { repo_id = none; owner = none; name = some "bit"; recent_commits = "4567def" ∷ [] }

decide_sym_example :
    (decide_repository_compatibility plain ours (some theirs)).compatible
    ≡ (decide_repository_compatibility plain theirs (some ours)).compatible
decide_sym_example = decide_sym plain ours theirs "bit" "bit" refl refl refl refl
