-- ===== src/RepositoryAffinity/Agreement.antt =====
-- Two relays decide alike about each other (src/repository_affinity.ts).
use bit_relay.Prelude.{
  ◌≡◌, ◌↔◌, inl, inr, refl, sym, subst, ap, ◌∙◌, ◌&&◌, Bool, true, false, not, List, [], ◌∷◌, map,
  any, Option, none, some, String, str_eq, eq_iff, eq_refl, arith, Bool-cases, if◌then◌else◌,
}
use bit_relay.Text.{is_empty}
use bit_relay.Room.{includes}
use bit_relay.RepositoryAffinity.{
  Texts, RelayRepositoryIdentity, has_recent_fast_forward_like_overlap, ids_equal,
  normalize_repository_id, decide_named, decide_peer, decide_local, known,
  decide_repository_compatibility,
}

-- A text in both lists.
abbrev pub IsShared : List String → List String → String → Type 0
IsShared xs ys s = (includes xs s ≡ true) × (includes ys s ≡ true)

any-IsShared :
    (xs ys : List String) → any (λ s. includes ys s) xs ≡ true → (s : String) × IsShared xs ys s
any-IsShared [] ys h = absurd (ground arith)
any-IsShared (x ∷ xs) ys h = elim (Bool-cases (includes ys x)) [
  | inl there ↦ (x, (ground (arith, eq_refl x), there))
  | inr absent ↦
      let (s, (left, right)) = any-IsShared xs ys (ground (arith, absent, h)) in
      (s, (ground (arith, left), right))
]

IsShared-any :
    (xs ys : List String) (s : String) → IsShared xs ys s → any (λ t. includes ys t) xs ≡ true
IsShared-any [] ys s (left, right) = absurd (ground arith)
IsShared-any (x ∷ xs) ys s (left, right) = elim (Bool-cases (str_eq x s)) [
  | inl same ↦
      let named : x ≡ s = (eq_iff x s).0 same in
      let there : includes ys x ≡ true = subst (λ t. includes ys t ≡ true) (sym named) right in
      ground (arith, there)
  | inr apart ↦
      let more = IsShared-any xs ys s (ground (arith, apart, left), right) in ground (arith, more)
]

head-included : (x : String) (xs : List String) → includes (x ∷ xs) x ≡ true
head-included x xs = ground (arith, eq_refl x)

module _ (x : Texts) where
  -- The tests of the two heads add nothing: lists overlap where they share a commit, whatever its case.
  pub overlap_iff :
      (local peer : List String)
      → (has_recent_fast_forward_like_overlap x local peer ≡ true)
        ↔ ((s : String) × IsShared (map x.to_lower_case local) (map x.to_lower_case peer) s)
  unfolding has_recent_fast_forward_like_overlap
  overlap_iff [] peer = ((λ h. absurd (ground arith)), λ h. absurd (ground (arith, h.1.0)))
  overlap_iff (l ∷ ls) [] = ((λ h. absurd (ground arith)), λ h. absurd (ground (arith, h.1.1)))
  overlap_iff (l ∷ ls) (q ∷ qs) =
      let local_set = map x.to_lower_case (l ∷ ls) in
      let peer_set = map x.to_lower_case (q ∷ qs) in
      (
        λ h. elim (Bool-cases (includes peer_set (x.to_lower_case l))) [
          | inl local_head ↦
              (x.to_lower_case l, (head-included _ (map x.to_lower_case ls), local_head))
          | inr no_local_head ↦ elim (Bool-cases (includes local_set (x.to_lower_case q))) [
            | inl peer_head ↦
                (x.to_lower_case q, (peer_head, head-included _ (map x.to_lower_case qs)))
            | inr no_peer_head ↦
                any-IsShared local_set peer_set (ground (arith, h, no_local_head, no_peer_head))
          ]
        ],
        λ h. let shared = IsShared-any local_set peer_set h.0 h.1 in ground (arith, shared),
      )

  overlap_sym :
      (local peer : List String)
      → has_recent_fast_forward_like_overlap x local peer
        ≡ has_recent_fast_forward_like_overlap x peer local
  overlap_sym local peer =
      let forth = overlap_iff local peer in
      let back = overlap_iff peer local in
      elim (Bool-cases (has_recent_fast_forward_like_overlap x local peer)) [
        | inl there ↦
            let (s, (left, right)) = forth.0 there in
            let found = back.1 (s, (right, left)) in rw (there, found) refl
        | inr absent ↦ elim (Bool-cases (has_recent_fast_forward_like_overlap x peer local)) [
          | inl there ↦
              let (s, (left, right)) = back.0 there in
              let found = forth.1 (s, (right, left)) in absurd (ground (arith, found, absent))
          | inr absent' ↦ rw (absent, absent') refl
        ]
      ]

  str_eq_sym : (a b : String) → str_eq a b ≡ str_eq b a
  str_eq_sym a b = ground (arith, eq_iff a b, eq_iff b a)

  ids_sym : (a b : Option String) → ids_equal x a b ≡ ids_equal x b a
  ids_sym none none = refl
  ids_sym none (some b) = refl
  ids_sym (some a) none = refl
  ids_sym (some a) (some b) = elim (Bool-cases (str_eq a b)) [
    | inl same ↦ let named : a ≡ b = (eq_iff a b).0 same in rw named refl
    | inr apart ↦
        let apart' : str_eq b a ≡ false = sym (str_eq_sym a b) ∙ apart in
        let never : (not (is_empty a) && false) ≡ (not (is_empty b) && false) = ground arith in
        rw (apart, apart') never
  ]

  -- A decision between known names by its three tests.
  abbrev verdict : (named ids overlap : Bool) → Bool
  verdict named ids overlap = if not named then false else if ids then true else overlap

  named-verdict :
      (a b : RelayRepositoryIdentity) (n m : String)
      → (decide_named x a b n m).compatible
        ≡ verdict
            (str_eq n m)
            (ids_equal x
              (normalize_repository_id x a.repo_id)
              (normalize_repository_id x b.repo_id))
            (has_recent_fast_forward_like_overlap x a.recent_commits b.recent_commits)
  unfolding decide_named
  named-verdict a b n m =
      let ids =
        ids_equal x (normalize_repository_id x a.repo_id) (normalize_repository_id x b.repo_id) in
      let overlap = has_recent_fast_forward_like_overlap x a.recent_commits b.recent_commits in
      elim (Bool-cases (str_eq n m)) [
        | inr apart ↦ rw apart refl
        | inl same ↦ elim (Bool-cases ids) [
          | inl equal ↦ rw (same, equal) refl
          | inr unequal ↦ elim (Bool-cases overlap) [
            | inl shared ↦ rw (same, unequal, shared) refl
            | inr disjoint ↦ rw (same, unequal, disjoint) refl
          ]
        ]
      ]

  named_sym :
      (a b : RelayRepositoryIdentity) (n m : String)
      → (decide_named x a b n m).compatible ≡ (decide_named x b a m n).compatible
  named_sym a b n m =
      let a_id = normalize_repository_id x a.repo_id in
      let b_id = normalize_repository_id x b.repo_id in
      let shared = has_recent_fast_forward_like_overlap x a.recent_commits b.recent_commits in
      named-verdict a b n m
      ∙ ap (λ q. verdict q (ids_equal x a_id b_id) shared) (str_eq_sym n m)
      ∙ ap (λ q. verdict (str_eq m n) q shared) (ids_sym a_id b_id)
      ∙ ap (λ q. verdict (str_eq m n) (ids_equal x b_id a_id) q)
          (overlap_sym a.recent_commits b.recent_commits)
      ∙ sym (named-verdict b a m n)

  decide-named :
      (a b : RelayRepositoryIdentity) (n m : String)
      → a.name ≡ some n
      → b.name ≡ some m
      → is_empty n ≡ false
      → is_empty m ≡ false
      → decide_repository_compatibility x a (some b) ≡ decide_named x a b n m
  unfolding decide_repository_compatibility
  decide-named a b n m an bm filled_n filled_m =
      let n_filled : known x (some n) ≡ some n = rw filled_n refl in
      let m_filled : known x (some m) ≡ some m = rw filled_m refl in
      ap (λ q. decide_local x q a (some b)) (ap (known x) an ∙ n_filled)
      ∙ ap (λ q. decide_peer x q a (some b) n) (ap (known x) bm ∙ m_filled)

  -- Two relays that know the names of their repositories decide alike about each other.
  pub decide_sym :
      (a b : RelayRepositoryIdentity) (n m : String)
      → a.name ≡ some n
      → b.name ≡ some m
      → is_empty n ≡ false
      → is_empty m ≡ false
      → (decide_repository_compatibility x a (some b)).compatible
        ≡ (decide_repository_compatibility x b (some a)).compatible
  decide_sym a b n m an bm filled_n filled_m =
      ap (λ d. d.compatible) (decide-named a b n m an bm filled_n filled_m)
      ∙ named_sym a b n m
      ∙ ap (λ d. d.compatible) (sym (decide-named b a m n bm an filled_m filled_n))
