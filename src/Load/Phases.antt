-- ===== src/Load/Phases.antt =====
-- The order in which the load test runs, for every outcome of its phases.
use bomber_cli.Base.{
  ℕ, ◌+◌, ◌/◌, ◌==◌, ◌≡◌, ◌≢◌, ◌↔◌, refl, inl, inr, arith, Bool, true, false, ◌||◌, if◌then◌else◌,
  Option, none, some, List, [], ◌∷◌, ◌++◌, map, length, is_some, ◌∈◌,
}

-- What becomes of one of the sessions: it does not connect, it does not come into its room, or it does.
pub data Attempt : Type 0 where
  no_connection : Attempt
  no_room : Attempt
  settled : Attempt

-- The clients that are connected, the sizes that are reported on the way, with the rooms, and the
-- session that failed.
pub record Population : Type 0 where
  pub clients : ℕ
  pub ramps : List (ℕ × ℕ)
  pub failed : Option ℕ

abbrev pub is_ramp : ℕ → Bool
is_ramp n = n == 16 || n == 64 || n == 128

-- The loop of `population`, after `n` clients.
abbrev pub populate : ℕ → List Attempt → Population
populate n [] = record { clients = n; ramps = []; failed = none }
populate n (no_connection ∷ more) = record { clients = n; ramps = []; failed = some n }
populate n (no_room ∷ more) = record { clients = n + 1; ramps = []; failed = some n }
populate n (settled ∷ more) =
    let rest = populate (n + 1) more in
    record rest {
      ramps = if is_ramp (n + 1) then (n + 1, (n + 1) / 4) ∷ rest.ramps else rest.ramps;
    }

-- The kinds of `event`.
pub data Report : Type 0 where
  begin connected capacity movement_start movement_complete rematch : Report
  disconnected reconnected recovery final_disconnect pass : Report
  ramp : ℕ × ℕ → Report

pub data LoadError : Type 0 where
  population_failed too_many_sessions games_failed movement_failed : LoadError
  rematch_failed reconnect_failed second_games_failed recovery_failed : LoadError

-- Whether each phase fails. `extra` says whether one of the sessions above the limit is let in.
pub record Phases : Type 0 where
  pub first : List Attempt
  pub extra : Bool
  pub games : Bool
  pub movement : Bool
  pub rematches : Bool
  pub second : List Attempt
  pub second_games : Bool
  pub recovered : Bool

abbrev pub Script : Type 0
Script = List Report × Option LoadError

abbrev pub says : List Report → Script → Script
says rs s = (rs ++ s.0, s.1)

-- if err != nil { return err }
abbrev pub unless : Bool → LoadError → Script → Script
unless true e s = ([], some e)
unless false e s = s

-- `population`, with its reports.
abbrev pub populated : Population → LoadError → Script → Script
populated q e s = says (map ramp q.ramps) (unless (is_some q.failed) e s)

-- `run`.
unfoldable pub run_load : Phases → Script
run_load p = says (begin ∷ []) (
    populated (populate 0 p.first) population_failed (
      says (connected ∷ []) (
        unless p.extra too_many_sessions (
          says (capacity ∷ []) (
            unless p.games games_failed (
              says (movement_start ∷ []) (
                unless p.movement movement_failed (
                  says (movement_complete ∷ []) (
                    unless p.rematches rematch_failed (
                      says (rematch ∷ disconnected ∷ []) (
                        populated (populate 0 p.second) reconnect_failed (
                          unless p.second_games second_games_failed (
                            says (reconnected ∷ []) (
                              unless p.recovered recovery_failed
                                (recovery ∷ final_disconnect ∷ pass ∷ [], none)))))))))))))))

-- No phase fails.
abbrev pub IsFlawless : Phases → Type 0
IsFlawless p =
    (is_some (populate 0 p.first).failed ≡ false)
    × ((p.extra ≡ false)
        × ((p.games ≡ false)
            × ((p.movement ≡ false)
                × ((p.rematches ≡ false)
                    × ((is_some (populate 0 p.second).failed ≡ false)
                        × ((p.second_games ≡ false) × (p.recovered ≡ false)))))))

-- The test passes exactly if it ends without an error.
abbrev IsHonest : Script → Type 0
IsHonest s = (s.1 ≡ none) ↔ (pass ∈ s.0)

in_later : (rs told : List Report) → (pass ∈ told) → pass ∈ (rs ++ told)
in_later [] told m = m
in_later (r ∷ rs) told m = inr (in_later rs told m)

in_told : (rs told : List Report) → (pass ∈ rs → ⊥) → pass ∈ (rs ++ told) → pass ∈ told
in_told [] told n m = m
in_told (r ∷ rs) told n (inl e) = absurd (n (inl e))
in_told (r ∷ rs) told n (inr m) = in_told rs told (λ k. n (inr k)) m

says-IsHonest :
    (rs : List Report) (s : Script) → (pass ∈ rs → ⊥) → IsHonest s → IsHonest (says rs s)
says-IsHonest rs s n h = ((λ e. in_later rs s.0 (h.0 e)), (λ m. h.1 (in_told rs s.0 n m)))

unless-IsHonest : (b : Bool) (e : LoadError) (s : Script) → IsHonest s → IsHonest (unless b e s)
unless-IsHonest true e s h = ((λ f. cc), (λ m. absurd m))
unless-IsHonest false e s h = h

ramps_only : (qs : List (ℕ × ℕ)) → pass ∈ map ramp qs → ⊥
ramps_only [] m = m
ramps_only (q ∷ qs) (inl e) = cc
ramps_only (q ∷ qs) (inr m) = ramps_only qs m

populated-IsHonest :
    (q : Population) (e : LoadError) (s : Script) → IsHonest s → IsHonest (populated q e s)
populated-IsHonest q e s h =
    says-IsHonest (map ramp q.ramps) _ (ramps_only q.ramps) (unless-IsHonest _ e s h)

passes-IsHonest : IsHonest (recovery ∷ final_disconnect ∷ pass ∷ [], none)
passes-IsHonest = ((λ e. inr (inr (inl refl))), (λ m. refl))

not_pass : (r : Report) → pass ≢ r → pass ∈ (r ∷ []) → ⊥
not_pass r n (inl e) = n e
not_pass r n (inr m) = m

-- The script ends without an error exactly if this holds.
abbrev Needs : Script → Type 0 → Type 0
Needs s P = (s.1 ≡ none) ↔ P

unless-Needs :
    (b : Bool) (e : LoadError) (s : Script) (P : Type 0)
    → Needs s P
    → Needs (unless b e s) ((b ≡ false) × P)
unless-Needs true e s P h = ((λ f. cc), (λ f. cc (f.0)))
unless-Needs false e s P h = ((λ f. (refl, h.0 f)), (λ f. h.1 f.1))

last-Needs :
    (b : Bool) (e : LoadError) (rs : List Report) → Needs (unless b e (rs, none)) (b ≡ false)
last-Needs true e rs = ((λ f. cc), (λ f. cc))
last-Needs false e rs = ((λ f. refl), (λ f. refl))

-- Without a failure every session is a client.
populate-clients :
    (n : ℕ) (attempts : List Attempt)
    → (is_some (populate n attempts).failed ≡ false)
    → (populate n attempts).clients ≡ n + length attempts
populate-clients n [] e = omega arith
populate-clients n (no_connection ∷ more) e = cc
populate-clients n (no_room ∷ more) e = cc
populate-clients n (settled ∷ more) e = omega (arith, populate-clients (n + 1) more e)

-- The load test reports that it passes exactly if it ends without an error, and this is exactly if no
-- phase fails. Then every session of both populations is a client.
pub run_load-IsHonest :
    (p : Phases)
    → (((run_load p).1 ≡ none) ↔ (pass ∈ (run_load p).0))
      × (((run_load p).1 ≡ none) ↔ IsFlawless p)
      × (IsFlawless p
          → ((populate 0 p.first).clients ≡ length p.first)
            × ((populate 0 p.second).clients ≡ length p.second))
unfolding run_load
run_load-IsHonest p = (
  says-IsHonest (begin ∷ []) _ (not_pass begin (λ e. cc)) (
      populated-IsHonest (populate 0 p.first) population_failed _ (
        says-IsHonest (connected ∷ []) _ (not_pass connected (λ e. cc)) (
          unless-IsHonest p.extra too_many_sessions _ (
            says-IsHonest (capacity ∷ []) _ (not_pass capacity (λ e. cc)) (
              unless-IsHonest p.games games_failed _ (
                says-IsHonest (movement_start ∷ []) _ (not_pass movement_start (λ e. cc)) (
                  unless-IsHonest p.movement movement_failed _ (
                    says-IsHonest (movement_complete ∷ []) _ (not_pass movement_complete (λ e. cc))
                      (unless-IsHonest p.rematches rematch_failed _ (
                        says-IsHonest (rematch ∷ disconnected ∷ []) _
                          (λ m. elim m [ inl e ↦ cc | inr k ↦ not_pass disconnected (λ e. cc) k ])
                          (populated-IsHonest (populate 0 p.second) reconnect_failed _ (
                            unless-IsHonest p.second_games second_games_failed _ (
                              says-IsHonest (reconnected ∷ []) _ (not_pass reconnected (λ e. cc)) (
                                unless-IsHonest p.recovered recovery_failed _
                                  passes-IsHonest)))))))))))))),
  unless-Needs (is_some (populate 0 p.first).failed) population_failed _ _ (
      unless-Needs p.extra too_many_sessions _ _ (
        unless-Needs p.games games_failed _ _ (
          unless-Needs p.movement movement_failed _ _ (
            unless-Needs p.rematches rematch_failed _ _ (
              unless-Needs (is_some (populate 0 p.second).failed) reconnect_failed _ _ (
                unless-Needs p.second_games second_games_failed _ _ (
                  last-Needs p.recovered recovery_failed
                    (recovery ∷ final_disconnect ∷ pass ∷ [])))))))),
  λ (first_whole, (_, (_, (_, (_, (second_whole, _)))))). (
    omega (arith, populate-clients 0 p.first first_whole),
    omega (arith, populate-clients 0 p.second second_whole),
  ),
)
