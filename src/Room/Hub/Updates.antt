-- ===== src/Room/Hub/Updates.antt =====
-- One room and one session change: what an update of the two maps keeps of the invariant.
use bomber_cli.Base.{
  ℕ, ◌<◌, ◌≤◌, ◌==◌, not, ◌≡◌, ◌≢◌, ◌↔◌, refl, sym, ap, ◌∙◌, ◌⊎◌, inl, inr, arith, Option, some,
  List, length, ◌∈◌, All, All-mem, All-map, AllPairs, AllPairs-Sublist, keep-Sublist, All-keep,
  All-through, AllPairs-through, length-through, length-Sublist, Bool-cases,
}
use bomber_cli.Game.Types.{Rand}
use bomber_cli.Room.Hub.Types.{
  Session, Entry, Hub, moved_to, assign, drop_session, room_of, replaced, put_room, delete_room,
}
use bomber_cli.Room.Hub.Maps.{
  location, location-some, find_session-some, room_of-put_self, room_of-put_ne, room_of-delete_ne,
}
use bomber_cli.Room.Hub.Invariant.{
  SessionsApart, EntriesApart, IsHoused, IsHoused-locations, IsOrderly, tenants,
}

-- What the sessions have by themselves.
pub record AreIssued (next most : ℕ) (ss : List Session) : Type 0 where
  pub issued : All (λ s. (0 < s.id) × (s.id ≤ next)) ss
  pub apart : AllPairs SessionsApart ss
  pub few : length ss ≤ most

module _ (next most x : ℕ) (ss : List Session) (h : AreIssued next most ss) where
  pub AreIssued-assign : (v : Option ℕ) → AreIssued next most (assign x v ss)
  AreIssued-assign v = record {
    issued =
        All-through (λ s. (0 < s.id) × (s.id ≤ next)) _ (moved_to x v) ss (λ s p. kept s p)
          h.issued;
    apart = AllPairs-through SessionsApart (moved_to x v) ss (λ s t p. both s t p) h.apart;
    few = omega (arith, length-through (moved_to x v) ss, h.few);
  }
    where
      kept :
          (s : Session)
          → (0 < s.id) × (s.id ≤ next)
          → (0 < (moved_to x v s).id) × ((moved_to x v s).id ≤ next)
      kept s p = elim (Bool-cases (s.id == x)) [ inl e ↦ rw e p | inr e ↦ rw e p ]

      both : (s t : Session) → SessionsApart s t → SessionsApart (moved_to x v s) (moved_to x v t)
      both s t p = elim (Bool-cases (s.id == x)) [
        | inl e ↦ elim (Bool-cases (t.id == x)) [ inl f ↦ rw e rw f p | inr f ↦ rw e rw f p ]
        | inr e ↦ elim (Bool-cases (t.id == x)) [ inl f ↦ rw e rw f p | inr f ↦ rw e rw f p ]
      ]

  pub AreIssued-drop : AreIssued next most (drop_session x ss)
  AreIssued-drop = record {
    issued = All-keep (λ s. (0 < s.id) × (s.id ≤ next)) _ _ ss (λ s e p. p) h.issued;
    apart = AllPairs-Sublist SessionsApart (keep-Sublist _ ss) h.apart;
    few = omega (arith, length-Sublist (keep-Sublist (λ s. not (s.id == x)) ss), h.few);
  }

module _ {r : Rand} (h : Hub r) (o : IsOrderly h) (i : ℕ) (ss : List Session)
    (issued : AreIssued h.next_session h.max_sessions ss)
    (others : (y j : ℕ) → j ≢ i → (location h.sessions y ≡ some j) ↔ (location ss y ≡ some j)) where
  -- The room `i` has become `e`.
  pub IsOrderly-put :
      (d e : Entry r)
      → room_of h.rooms i ≡ some d
      → e.id ≡ i
      → IsHoused ss e
      → ((y : ℕ) → location ss y ≡ some i → y ∈ tenants e)
      → IsOrderly (record h { sessions = ss; rooms = put_room e h.rooms })
  IsOrderly-put d e found named housed home = record {
    issued = issued.issued;
    apart = issued.apart;
    few = issued.few;
    opened =
        All-through (λ c. (0 < c.id) × (c.id ≤ h.next_room)) _ (replaced e) h.rooms
          (λ c p. opened c p) o.opened;
    rooms_apart =
        AllPairs-through EntriesApart (replaced e) h.rooms (λ a b n. apart a b n) o.rooms_apart;
    few_rooms = omega (arith, length-through (replaced e) h.rooms, o.few_rooms);
    housed = All-through (IsHoused h.sessions) _ (replaced e) h.rooms (λ c p. at_home c p) o.housed;
    homes = λ y j at. home_of y j at;
  }
    where
      opened :
          (c : Entry r)
          → (0 < c.id) × (c.id ≤ h.next_room)
          → (0 < (replaced e c).id) × ((replaced e c).id ≤ h.next_room)
      opened c p = elim (Bool-cases (c.id == e.id)) [
        | inl k ↦ let same : c.id ≡ e.id = ground (arith, k) in rw k (rw same at p)
        | inr k ↦ rw k p
      ]

      id_replaced : (c : Entry r) → (replaced e c).id ≡ c.id
      id_replaced c = elim (Bool-cases (c.id == e.id)) [
        | inl k ↦ rw k (ground (arith, k))
        | inr k ↦ rw k refl
      ]

      apart : (a b : Entry r) → a.id ≢ b.id → (replaced e a).id ≢ (replaced e b).id
      apart a b n same = n (sym (id_replaced a) ∙ same ∙ id_replaced b)

      at_home : (c : Entry r) → IsHoused h.sessions c → IsHoused ss (replaced e c)
      at_home c p = elim (Bool-cases (c.id == e.id)) [
        | inl k ↦ rw k housed
        | inr k ↦
            rw k (IsHoused-locations c (λ x at. (others x c.id (ground (arith, k, named))).0 at) p)
      ]

      home_of :
          (y j : ℕ)
          → location ss y ≡ some j
          → (c : Entry r) × (room_of (put_room e h.rooms) j ≡ some c) × (y ∈ tenants c)
      home_of y j at = elim (Bool-cases (j == i)) [
        | inl k ↦
            let same : j ≡ e.id = ground (arith, k, named) in
            (
              e,
              rw same (room_of-put_self h.rooms e {d = d} (rw named found)),
              home y (at ∙ ap some (same ∙ named)),
            )
        | inr k ↦
            let (c, at', m) = o.homes y j ((others y j (ground (arith, k))).1 at) in
            (c, room_of-put_ne h.rooms e j (ground (arith, k, named)) ∙ at', m)
      ]

  -- The room `i` is closed.
  pub IsOrderly-delete :
      ((y : ℕ) → location ss y ≢ some i)
      → IsOrderly (record h { sessions = ss; rooms = delete_room i h.rooms })
  IsOrderly-delete nobody = record {
    issued = issued.issued;
    apart = issued.apart;
    few = issued.few;
    opened = All-keep (λ c. (0 < c.id) × (c.id ≤ h.next_room)) _ _ h.rooms (λ c e p. p) o.opened;
    rooms_apart = AllPairs-Sublist EntriesApart (keep-Sublist _ h.rooms) o.rooms_apart;
    few_rooms =
        omega (arith, length-Sublist (keep-Sublist (λ c. not (c.id == i)) h.rooms), o.few_rooms);
    housed =
        All-keep (IsHoused h.sessions) _ _ h.rooms
          (λ c e p. IsHoused-locations c (λ x at. (others x c.id (ground (arith, e))).0 at) p)
          o.housed;
    homes = λ y j at. home_of y j at;
  }
    where
      home_of :
          (y j : ℕ)
          → location ss y ≡ some j
          → (c : Entry r) × (room_of (delete_room i h.rooms) j ≡ some c) × (y ∈ tenants c)
      home_of y j at = elim (Bool-cases (j == i)) [
        | inl k ↦ let same : j ≡ i = ground (arith, k) in absurd (nobody y (at ∙ ap some same))
        | inr k ↦
            let (c, at', m) = o.homes y j ((others y j (ground (arith, k))).1 at) in
            (c, room_of-delete_ne h.rooms i j (ground (arith, k)) ∙ at', m)
      ]

module _ {r : Rand} where
  pub issued_of : (h : Hub r) → IsOrderly h → AreIssued h.next_session h.max_sessions h.sessions
  issued_of h o = record { issued = o.issued; apart = o.apart; few = o.few }

  pub put-lived :
      (e : Entry r) (i : ℕ)
      → e.id ≡ i
      → (es : List (Entry r)) → All (λ c. (c.id ≡ i) ⊎ (0 < c.actor.snapshot.count)) es
      → 0 < e.actor.snapshot.count
      → All (λ c. 0 < c.actor.snapshot.count) (put_room e es)
  put-lived e i named es h lived =
      All-through (λ c. (c.id ≡ i) ⊎ (0 < c.actor.snapshot.count)) _ (replaced e) es
        (λ c p. each c p) h
    where
      each :
          (c : Entry r)
          → (c.id ≡ i) ⊎ (0 < c.actor.snapshot.count)
          → 0 < (replaced e c).actor.snapshot.count
      each c p = elim (Bool-cases (c.id == e.id)) [
        | inl k ↦ rw k lived
        | inr k ↦ rw k (ground (arith, k, named, p))
      ]

  pub delete-lived :
      (i : ℕ) (es : List (Entry r))
      → All (λ c. (c.id ≡ i) ⊎ (0 < c.actor.snapshot.count)) es
      → All (λ c. 0 < c.actor.snapshot.count) (delete_room i es)
  delete-lived i es h =
      All-keep (λ c. (c.id ≡ i) ⊎ (0 < c.actor.snapshot.count)) _ _ es
        (λ c e p. ground (arith, e, p)) h

  -- Who is in a room has an identifier.
  pub known_id :
      (h : Hub r) → IsOrderly h → (y : ℕ) {i : ℕ} → location h.sessions y ≡ some i → y ≢ 0
  known_id h o y {i} l z =
      let (t, found, _) = location-some h.sessions y i l in
      let (same, m) = find_session-some h.sessions y found in
      omega
        (arith, same, (All-mem (λ t. (0 < t.id) × (t.id ≤ h.next_session)) h.sessions o.issued m).0)

  -- The sessions change, and nobody moves.
  pub IsOrderly-sessions :
      (h : Hub r) (o : IsOrderly h) (ss : List Session)
      → AreIssued h.next_session h.max_sessions ss
      → ((y j : ℕ) → (location h.sessions y ≡ some j) ↔ (location ss y ≡ some j))
      → IsOrderly (record h { sessions = ss })
  IsOrderly-sessions h o ss issued same = record {
    issued = issued.issued;
    apart = issued.apart;
    few = issued.few;
    opened = o.opened;
    rooms_apart = o.rooms_apart;
    few_rooms = o.few_rooms;
    housed =
        All-map (IsHoused h.sessions) _ h.rooms (λ e. IsHoused-locations e (λ x. (same x e.id).0))
          o.housed;
    homes = λ x i at. o.homes x i ((same x i).1 at);
  }
