-- ===== src/Safety/Identity.antt =====
-- src/safety.rs: the participants of an accepted run are safe, distinct and as many as declared, and
-- every routing assertion and readiness alias refers to one of them.
use tak_bench.Prelude.{
  ◌≤◌, ◌<◌, ◌≡◌, ◌≢◌, true, false, ◌&&◌, is_none_or, is_empty, is_empty-nil, is_some, map, length,
  List, [], ◌∷◌, ◌++◌, All, Any, any-false-All, any-Any, arith, ok, ◌⊎◌, inl, inr, Bool-cases,
}
use tak_bench.Prelude.Bytes.{Str, str_eq, str_eq→eq, eq→str_eq}
use tak_bench.Prelude.Float.{Float}
use tak_bench.Config.Enums.{ParticipantRole, send_only, receive_only, role_eq}
use tak_bench.Config.Types.{ParticipantConfig, RoutingAssertion, AppConfig}
use tak_bench.Config.Tls.{is_safe_participant_id}
use tak_bench.Safety.Errors.{SafetyOptions}
use tak_bench.Safety.Participants.{
  member, has_bad_id, find_participant, is_bad_assertion, validate_routing, has_bad_alias,
  validate_participants_and_routing, validate_synchronization,
}
use tak_bench.Safety.Policy.{validate_with_options}
use tak_bench.Safety.Accepted.{validate_with_options-IsAccepted}

-- No id stands in the list twice, nor in the set of those seen before.
abbrev pub AllNew : List Str → List Str → Type 0
AllNew seen [] = Unit
AllNew seen (id ∷ rest) = All (λ other. other ≢ id) seen × AllNew (id ∷ seen) rest

abbrev pub ids : List ParticipantConfig → List Str
ids = map (λ participant. participant.id)

not_member : (id : Str) (seen : List Str) → member id seen ≡ false → All (λ other. other ≢ id) seen
not_member id seen =
    any-false-All _ (λ other. str_eq other id) seen
      (λ other h e. ground (arith, h, eq→str_eq other id e))

has_bad_id-false :
    (seen : List Str) (participants : List ParticipantConfig)
    → has_bad_id seen participants ≡ false
    → All (λ p. is_safe_participant_id p.id ≡ true) participants × AllNew seen (ids participants)
unfolding has_bad_id
has_bad_id-false seen [] h = (tt, tt)
has_bad_id-false seen (p ∷ rest) h =
    let (safe, new) = has_bad_id-false (p.id ∷ seen) rest (ground (arith, h)) in
    ((ground (arith, h), safe), (not_member p.id seen (ground (arith, h)), new))

-- A participant with this id that `Accepts` it in its role
abbrev pub Plays : List ParticipantConfig → (ParticipantRole → Type 0) → Str → Type 0
Plays participants Fits id = Any (λ p. (p.id ≡ id) × Fits p.role) participants

find-Plays :
    (participants : List ParticipantConfig) (bad : ParticipantRole) (id : Str)
    → is_none_or (find_participant participants id) (λ p. role_eq p.role bad) ≡ false
    → Plays participants (λ role. role ≢ bad) id
unfolding find_participant
find-Plays [] bad id h = cc
find-Plays (p ∷ rest) bad id h = elim (Bool-cases (str_eq p.id id)) [
  | inl found ↦ inl (str_eq→eq p.id id found, λ same. ground (arith, h, found, same))
  | inr other ↦ inr (find-Plays rest bad id (rw other at h))
]

-- Each assertion names a sender that may send, some receiver, and receivers that may receive.
pub record IsObservable (participants : List ParticipantConfig) (assertion : RoutingAssertion)
    : Type 0 where
  pub sender_sends : Plays participants (λ role. role ≢ receive_only) assertion.sender
  pub observed : (assertion.receivers ≢ []) ⊎ (assertion.forbidden_receivers ≢ [])
  pub receivers_receive :
      All
        (Plays participants (λ role. role ≢ send_only))
        (assertion.receivers ++ assertion.forbidden_receivers)

not_empty : (xs ys : List Str) → (is_empty xs && is_empty ys) ≡ false → (xs ≢ []) ⊎ (ys ≢ [])
not_empty [] [] h = cc
not_empty [] (y ∷ ys) h = inr (λ e. cc)
not_empty (x ∷ xs) ys h = inl (λ e. cc)

is_bad_assertion-false :
    (participants : List ParticipantConfig) (assertion : RoutingAssertion)
    → is_bad_assertion participants assertion ≡ false
    → IsObservable participants assertion
unfolding is_bad_assertion
is_bad_assertion-false participants assertion h = record {
  sender_sends = find-Plays participants receive_only assertion.sender (ground (arith, h));
  observed = not_empty assertion.receivers assertion.forbidden_receivers (ground (arith, h));
  receivers_receive =
      any-false-All _ _ (assertion.receivers ++ assertion.forbidden_receivers)
        (λ id ok_id. find-Plays participants send_only id ok_id) (ground (arith, h));
}

validate_routing-ok :
    (participants : List ParticipantConfig) (routing : List RoutingAssertion)
    → validate_routing participants routing ≡ ok tt
    → All (IsObservable participants) routing
unfolding validate_routing
validate_routing-ok participants [] h = tt
validate_routing-ok participants (assertion ∷ rest) h =
    elim (Bool-cases (is_bad_assertion participants assertion)) [
      | inl bad ↦ cc (rw bad at h)
      | inr good ↦ (
        is_bad_assertion-false participants assertion good,
        validate_routing-ok participants rest (rw good at h),
      )
    ]

has_bad_alias-false :
    (participants : List ParticipantConfig) (seen aliases : List Str)
    → has_bad_alias participants seen aliases ≡ false
    → AllNew seen aliases × All (λ id. Any (λ p. p.id ≡ id) participants) aliases
unfolding has_bad_alias
has_bad_alias-false participants seen [] h = (tt, tt)
has_bad_alias-false participants seen (id ∷ rest) h =
    let (new, known) = has_bad_alias-false participants (id ∷ seen) rest (ground (arith, h)) in
    let configured =
      any-Any (λ p. p.id ≡ id) (λ p. str_eq p.id id) participants (λ p e. str_eq→eq p.id id e)
        (ground (arith, h)) in
    ((not_member id seen (ground (arith, h)), new), (configured, known))

module _ {F64 : Type 0} where
  -- What the first of the two validators leaves, whether participants are listed or counted
  participants_of :
      (config : AppConfig F64)
      → validate_participants_and_routing config ≡ ok tt
      → All (λ p. is_safe_participant_id p.id ≡ true) config.participants
        × AllNew [] (ids config.participants)
        × All (IsObservable config.participants) config.scenario.routing
  unfolding validate_participants_and_routing
  participants_of config h = elim (Bool-cases (is_empty config.participants)) [
    | inl counted ↦
        let no_routing : config.scenario.routing ≡ [] =
          is_empty-nil _ (ground (arith, h, counted)) in
        rw (is_empty-nil _ counted, no_routing) (tt, tt, tt)
    | inr listed ↦
        let (safe, new) = has_bad_id-false [] config.participants (ground (arith, h, listed)) in
        (
          safe,
          new,
          validate_routing-ok config.participants config.scenario.routing
              (ground (arith, h, listed)),
        )
  ]

  -- The readiness barrier waits for distinct, configured participants, and always has a timeout.
  pub record IsSynchronized (config : AppConfig F64) : Type 0 where
    pub distinct : AllNew [] config.synchronization.wait_for_ready
    pub configured :
        All (λ id. Any (λ p. p.id ≡ id) config.participants) config.synchronization.wait_for_ready
    pub timed :
        config.synchronization.wait_for_ready ≢ [] → is_some config.synchronization.timeout ≡ true

  synchronization_of :
      (config : AppConfig F64) → validate_synchronization config ≡ ok tt → IsSynchronized config
  unfolding validate_synchronization
  synchronization_of config h = elim (Bool-cases (is_empty config.synchronization.wait_for_ready)) [
    | inl none_waited ↦
        let nobody = is_empty-nil config.synchronization.wait_for_ready none_waited in
        record {
          distinct = rw nobody tt;
          configured = rw nobody tt;
          timed = λ some_waited. absurd (some_waited nobody);
        }
    | inr waited ↦
        let (new, known) =
          has_bad_alias-false config.participants [] config.synchronization.wait_for_ready
            (ground (arith, h, waited)) in
        record {
          distinct = new;
          configured = known;
          timed = λ some_waited. ground (arith, h, waited);
        }
  ]

module _ (f : Float) where
  open f use {F64}

  -- In an accepted run every listed participant has a path-safe id of its own, the list is as long
  -- as `clients`, and there is at least one client and at most `max_clients`.
  pub participants_distinct :
      (config : AppConfig F64) (options : SafetyOptions)
      → validate_with_options f config options ≡ ok tt
      → All (λ p. is_safe_participant_id p.id ≡ true) config.participants
        × AllNew [] (ids config.participants)
        × ((config.participants ≡ []) ⊎ (length config.participants ≡ config.run.clients))
        × (0 < config.run.clients)
        × (config.run.clients ≤ config.run.max_clients)
  participants_distinct config options h =
      let workload = (validate_with_options-IsAccepted f config options h).workload in
      let (safe, new, _) = participants_of config workload.participants_ok in
      (safe, new, workload.counted, workload.some_clients, workload.few_clients)

  -- In an accepted run each routing assertion can be observed: its sender is a participant that
  -- sends, it names a receiver, and all its receivers are participants that receive.
  pub routing-IsObservable :
      (config : AppConfig F64) (options : SafetyOptions)
      → validate_with_options f config options ≡ ok tt
      → All (IsObservable config.participants) config.scenario.routing × IsSynchronized config
  routing-IsObservable config options h =
      let workload = (validate_with_options-IsAccepted f config options h).workload in
      (
        (participants_of config workload.participants_ok).2,
        synchronization_of config workload.synchronization_ok,
      )
