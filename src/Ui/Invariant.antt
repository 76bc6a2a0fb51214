-- ===== src/Ui/Invariant.antt =====
-- What holds of the model of the interface between two messages.
use native.Mathlib.Nat.{mod-lt, mod-eq_of_lt, mod-eq-sub-mod}
use bomber_cli.Base.{
  ℕ, ◌+◌, ◌-◌, ◌%◌, ◌<◌, ◌≤◌, ◌==◌, ltb, leb, ◌≡◌, ◌⊎◌, refl, ap, ◌∙◌, inl, inr, arith, Bool, true,
  false, not, ◌&&◌, is_some, if◌then◌else◌, Option, none, some, List, [], ◌∷◌, length, get_elem?-lt,
  mem-get, ◌∈◌, All, Text, codes, Bool-cases, Option-cases, Returns, Returns-ok, Returns-bind,
}
use bomber_cli.Room.Types.{Snapshot, Action}
use bomber_cli.Room.Hub.Types.{Reply, granted, refused}
use bomber_cli.Ui.Model.{
  Model, Answers, Call, asks_to_join, asks_to_leave, submits, quits, Message, snapshot_came,
  resized, pulsed, key_came, is_key, is_small, leave_room, wanted_room, joined_model,
  join_selected_room, moved_up, moved_down, handle_lobby_key, submitted, action_for_key, handle_key,
  pulsed_model, is_here, update, updates,
}

-- A model in a room has a snapshot of that room.
abbrev pub IsShown : Option ℕ → Option Snapshot → Type 0
IsShown none s = Unit {0}
IsShown (some i) none = ⊥
IsShown (some i) (some s) = s.id ≡ i

pub record IsUsable (m : Model) : Type 0 where
  pub pointed : m.selected < length m.rooms + 2
  pub shown : IsShown m.room m.snapshot

-- A room that lets the session in shows its own snapshot.
abbrev pub IsLawful : Answers → Type 0
IsLawful a =
    (id : ℕ) (new : Bool) (i : ℕ) (s : Snapshot) → a.join id new ≡ granted (i, s) → s.id ≡ i

-- When a call is made: to join from the lobby and to play from a room only in a window that is large
-- enough, to join a new room, any room or one of the listed rooms, to leave from a room.
abbrev pub Fits : Model → Call → Type 0
Fits m (asks_to_join id new) =
    (m.room ≡ none)
    × (is_small m ≡ false)
    × ((id ≡ 0) ⊎ ((s : Snapshot) × (s ∈ m.rooms) × (id ≡ s.id) × (new ≡ false)))
Fits m asks_to_leave = is_some m.room ≡ true
Fits m (submits x) = (is_some m.room ≡ true) × (is_small m ≡ false)
Fits m quits = Unit {0}

-- The room that the answer to a request to join leads to.
abbrev pub entered : Option ℕ → Reply (ℕ × Snapshot) → Option ℕ
entered room (refused x) = room
entered room (granted (i, s)) = some i

-- Where the answers to the calls lead to that the hub gives, from a room or from the lobby.
abbrev pub room_after : Answers → Option ℕ → List Call → Option ℕ
room_after a room [] = room
room_after a room (asks_to_join id new ∷ cs) = room_after a (entered room (a.join id new)) cs
room_after a room (asks_to_leave ∷ cs) = room_after a none cs
room_after a room (submits x ∷ cs) = room_after a room cs
room_after a room (quits ∷ cs) = room_after a room cs

-- The model is usable, every call fits, there is at most one, and the model is in the room that its
-- answer leads to. The session stays the same.
abbrev pub IsServed : Answers → Model → Model × List Call → Type 0
IsServed a m q =
    IsUsable q.0
    × All (Fits m) q.1
    × (q.0.room ≡ room_after a m.room q.1)
    × (q.0.session ≡ m.session)
    × (length q.1 ≤ 1)

module _ (a : Answers) (law : IsLawful a) (m : Model) (h : IsUsable m) where
  same-IsServed : IsServed a m (m, [])
  same-IsServed = (h, tt, refl, refl, omega arith)

  wanted :
      Returns
        (λ id.
          (id ≡ 0) ⊎ ((s : Snapshot) × (s ∈ m.rooms) × (id ≡ s.id) × ((m.selected == 1) ≡ false)))
        (wanted_room m)
  wanted = elim (Bool-cases (leb 2 m.selected)) [
    | inl e ↦
        let (s, at) = get_elem?-lt m.rooms (m.selected - 2) (ground (arith, e, h.pointed)) in
        let other : (m.selected == 1) ≡ false = ground (arith, e) in
        rw (e, wanted_room) rw at
          (Returns-ok s.id (inr (s, mem-get m.rooms (m.selected - 2) at, refl, other)))
    | inr e ↦ rw (e, wanted_room) (Returns-ok 0 (inl refl))
  ]

  joined-IsUsable : (id : ℕ) (new : Bool) → IsUsable (joined_model m (a.join id new))
  joined-IsUsable id new = answered (a.join id new) (λ i s e. law id new i s e)
    where
      answered :
          (q : Reply (ℕ × Snapshot))
          → ((i : ℕ) (s : Snapshot) → q ≡ granted (i, s) → s.id ≡ i)
          → IsUsable (joined_model m q)
      answered (refused x) same = record { pointed = h.pointed; shown = h.shown }
      answered (granted (i, s)) same = record { pointed = h.pointed; shown = same i s refl }

  join-IsServed :
      m.room ≡ none → is_small m ≡ false → Returns (IsServed a m) (join_selected_room a m)
  unfolding join_selected_room
  join-IsServed lobby large = Returns-bind _ (IsServed a m) _ wanted λ id w. Returns-ok _ (
    joined-IsUsable id (m.selected == 1),
    ((lobby, large, w), tt),
    room_of_joined (a.join id (m.selected == 1)),
    session_of_joined (a.join id (m.selected == 1)),
    omega arith,
  )
    where
      room_of_joined : (q : Reply (ℕ × Snapshot)) → (joined_model m q).room ≡ entered m.room q
      room_of_joined (refused x) = refl
      room_of_joined (granted (i, s)) = refl

      session_of_joined : (q : Reply (ℕ × Snapshot)) → (joined_model m q).session ≡ m.session
      session_of_joined (refused x) = refl
      session_of_joined (granted (i, s)) = refl

  move-IsServed : (k : ℕ) → IsServed a m (record m { selected = k % (length m.rooms + 2) }, [])
  move-IsServed k =
      (record { pointed = mod-lt k (omega arith); shown = h.shown }, tt, refl, refl, omega arith)

  lobby-IsServed :
      (key : Text)
      → m.room ≡ none
      → is_small m ≡ false
      → Returns (IsServed a m) (handle_lobby_key a key m)
  unfolding handle_lobby_key
  lobby-IsServed key lobby large = elim (Bool-cases (is_key key (codes "up" ∷ codes "w" ∷ []))) [
    | inl e ↦
        rw (e, handle_lobby_key) (Returns-ok _ (move-IsServed (m.selected + length m.rooms + 1)))
    | inr e ↦ elim (Bool-cases (is_key key (codes "down" ∷ codes "s" ∷ []))) [
      | inl f ↦ rw (e, handle_lobby_key) rw f (Returns-ok _ (move-IsServed (m.selected + 1)))
      | inr f ↦ elim (Bool-cases (is_key key (codes "enter" ∷ []))) [
        | inl g ↦ rw (e, handle_lobby_key) rw f rw g (join-IsServed lobby large)
        | inr g ↦ rw (e, handle_lobby_key) rw f rw g (Returns-ok _ same-IsServed)
      ]
    ]
  ]

  key-IsServed : (key : Text) → Returns (IsServed a m) (handle_key a key m)
  unfolding handle_key leave_room
  key-IsServed key = elim (Bool-cases (is_key key (codes "ctrl+c" ∷ []))) [
    | inl e ↦ rw (e, handle_key) (Returns-ok _ (h, (tt, tt), refl, refl, omega arith))
    | inr e ↦ elim (Bool-cases (is_key key (codes "esc" ∷ []) && is_some m.room)) [
      | inl f ↦
          rw (e, handle_key) rw f
            (Returns-ok _ (
              record { pointed = omega arith; shown = tt },
              (ground (arith, f), tt),
              refl,
              refl,
              omega arith,
            ))
      | inr f ↦ elim (Bool-cases (is_small m)) [
        | inl g ↦ rw (e, handle_key) rw f rw g (Returns-ok _ same-IsServed)
        | inr g ↦ elim (Option-cases m.room) [
          | inl r ↦ rw (e, handle_key) rw f rw g (rw (in_lobby m.room r) (lobby-IsServed key r g))
          | inr (i, r) ↦
              let there : is_some m.room ≡ true = rw r refl in
              rw (e, handle_key) rw f rw g rw there
                (Returns-ok _ (played there g (action_for_key key)))
        ]
      ]
    ]
  ]
    where
      in_lobby : (o : Option ℕ) → o ≡ none → not (is_some o) ≡ true
      in_lobby none e = refl
      in_lobby (some i) e = cc

      played :
          is_some m.room ≡ true
          → is_small m ≡ false
          → (o : Option Action) → IsServed a m (m, submitted o)
      played there large none = same-IsServed
      played there large (some x) = (h, ((there, large), tt), refl, refl, omega arith)

  pulse-IsServed : (now : ℕ) → IsServed a m (pulsed_model a now m, [])
  pulse-IsServed now = elim (Bool-cases (is_some m.room)) [
    | inl e ↦ rw e (record { pointed = h.pointed; shown = h.shown }, tt, refl, refl, omega arith)
    | inr e ↦ rw e (record { pointed = here; shown = h.shown }, tt, refl, refl, omega arith)
  ]
    where
      here : (if leb (length a.list + 2) m.selected then 0 else m.selected) < length a.list + 2
      here = elim (Bool-cases (leb (length a.list + 2) m.selected)) [
        | inl f ↦ rw f (omega arith)
        | inr f ↦ rw f (ground (arith, f))
      ]

  seen-IsServed :
      (s : Snapshot)
      → IsServed a m (if is_here m.room s.id then record m { snapshot = some s } else m, [])
  seen-IsServed s = elim (Bool-cases (is_here m.room s.id)) [
    | inl e ↦
        rw e (record { pointed = h.pointed; shown = here m.room e }, tt, refl, refl, omega arith)
    | inr e ↦ rw e same-IsServed
  ]
    where
      here : (o : Option ℕ) → is_here o s.id ≡ true → IsShown o (some s)
      here none e = tt
      here (some i) e = ground (arith, e)

  -- With answers that show the snapshot of the room that lets the session in, every message returns and
  -- does not panic, whatever the window and the key. The cursor points to an option and a model in a
  -- room has a snapshot of that room. Calls are made where they fit: to join only from the lobby, for a
  -- listed room, for any room or for a new one; to leave only from a room; and from a window that is too
  -- small no call but to leave and to quit. A message makes at most one call, and the model is in the
  -- room that the answer to it leads to.
  pub update-IsServed : (v : Message) → Returns (IsServed a m) (update a v m)
  unfolding update
  update-IsServed (snapshot_came s) = Returns-ok _ (seen-IsServed s)
  update-IsServed (resized w l) =
      Returns-ok _ (record { pointed = h.pointed; shown = h.shown }, tt, refl, refl, omega arith)
  update-IsServed (pulsed now) = Returns-ok _ (pulse-IsServed now)
  update-IsServed (key_came key) = key-IsServed key

-- From a usable model, any sequence of messages returns, whatever the hub answers in between, as long
-- as a room that lets the session in shows its own snapshot; the model is usable afterwards.
pub updates-IsUsable :
    (vs : List (Answers × Message)) (m : Model)
    → All (λ (a, v). IsLawful a) vs
    → IsUsable m
    → Returns (λ q. IsUsable q.0) (updates vs m)
unfolding updates
updates-IsUsable [] m law h = Returns-ok _ h
updates-IsUsable ((a, v) ∷ vs) m law h =
    Returns-bind (IsServed a m) _ _ (update-IsServed a law.0 m h v) λ (m', calls) s.
      Returns-bind (λ q. IsUsable q.0) (λ q. IsUsable q.0) _ (updates-IsUsable vs m' law.1 s.0)
        λ (m'', more) u. Returns-ok _ u

wrap_high : (a n : ℕ) → n ≤ a → a < n + n → a % n ≡ a - n
wrap_high a n low high = mod-eq-sub-mod low ∙ mod-eq_of_lt (omega arith)

-- While the cursor points to an option, down and up, in either order, lead back to the same model.
pub moved_up-moved_down :
    (m : Model)
    → m.selected < length m.rooms + 2
    → (moved_up (moved_down m) ≡ m) × (moved_down (moved_up m) ≡ m)
moved_up-moved_down m h = (
  ap {A = ℕ} (λ k. record m { selected = k }) (back m.selected (length m.rooms) h),
  ap {A = ℕ} (λ k. record m { selected = k }) (forth m.selected (length m.rooms) h),
)
  where
    back : (k n : ℕ) → k < n + 2 → ((k + 1) % (n + 2) + n + 1) % (n + 2) ≡ k
    back k n h = elim (Bool-cases (ltb (k + 1) (n + 2))) [
      | inl e ↦
          let low : (k + 1) % (n + 2) ≡ k + 1 = mod-eq_of_lt (ground (arith, e)) in
          rw low (
            let high = wrap_high (k + 1 + n + 1) (n + 2) (omega arith) (omega arith) in
            omega (arith, high))
      | inr e ↦
          let low = wrap_high (k + 1) (n + 2) (ground (arith, e)) (omega arith) in
          let none_left : (k + 1) % (n + 2) ≡ 0 = ground (arith, low, e) in
          rw none_left (
            let last : (0 + n + 1) % (n + 2) ≡ 0 + n + 1 = mod-eq_of_lt (omega arith) in
            ground (arith, last, e))
    ]

    forth : (k n : ℕ) → k < n + 2 → ((k + n + 1) % (n + 2) + 1) % (n + 2) ≡ k
    forth k n h = elim (Bool-cases (k == 0)) [
      | inl e ↦
          let first : (k + n + 1) % (n + 2) ≡ k + n + 1 = mod-eq_of_lt (ground (arith, e)) in
          rw first (
            let high = wrap_high (k + n + 1 + 1) (n + 2) (omega arith) (ground (arith, e)) in
            ground (arith, high, e))
      | inr e ↦
          let low = wrap_high (k + n + 1) (n + 2) (ground (arith, e)) (omega arith) in
          let one_less : (k + n + 1) % (n + 2) ≡ k - 1 = omega (arith, low) in
          rw one_less (
            let last : (k - 1 + 1) % (n + 2) ≡ k - 1 + 1 = mod-eq_of_lt (omega arith) in
            ground (arith, last, e))
    ]
