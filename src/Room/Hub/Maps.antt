-- ===== src/Room/Hub/Maps.antt =====
-- The maps of the hub: look-ups after an update.
use bomber_cli.Base.{
  ℕ, ◌==◌, ◌≡◌, ◌≢◌, refl, sym, ap, inl, inr, arith, true, false, Option, none, some, List, [], ◌∷◌,
  ◌∈◌, Bool-cases, some_inj,
}
use bomber_cli.Game.Types.{Rand}
use bomber_cli.Room.Hub.Types.{
  Session, Entry, find_session, moved_to, assign, drop_session, room_of, replaced, put_room,
  delete_room,
}

abbrev pub room_in : Option Session → Option ℕ
room_in none = none
room_in (some s) = s.room

-- The room in which the session of an identifier is.
abbrev pub location : List Session → ℕ → Option ℕ
location ss x = room_in (find_session ss x)

pub find_session-some :
    (ss : List Session) (x : ℕ) {s : Session} → find_session ss x ≡ some s → (s.id ≡ x) × (s ∈ ss)
find_session-some [] x e = cc
find_session-some (t ∷ ss) x {s} e = elim (Bool-cases (t.id == x)) [
  | inl h ↦ let same : t ≡ s = some_inj (rw h at e) in (rw (← same) (ground arith), inl (sym same))
  | inr h ↦ let (named, m) = find_session-some ss x (rw h at e) in (named, inr m)
]

pub location_lem :
    (ss : List Session) (x : ℕ) {s : Session} → find_session ss x ≡ some s → location ss x ≡ s.room
location_lem ss x e = ap room_in e

pub location-some :
    (ss : List Session) (x i : ℕ)
    → location ss x ≡ some i
    → (s : Session) × (find_session ss x ≡ some s) × (s.room ≡ some i)
location-some ss x i e = at (find_session ss x) refl e
  where
    at :
        (o : Option Session)
        → find_session ss x ≡ o
        → room_in o ≡ some i
        → (s : Session) × (find_session ss x ≡ some s) × (s.room ≡ some i)
    at none f e = cc
    at (some s) f e = (s, f, e)

moved_self :
    (x : ℕ) (v : Option ℕ) (s : Session)
    → (s.id == x) ≡ true
    → moved_to x v s ≡ record s { room = v }
moved_self x v s h = rw (h, moved_to) refl

moved_ne : (x : ℕ) (v : Option ℕ) (s : Session) → (s.id == x) ≡ false → moved_to x v s ≡ s
moved_ne x v s h = rw (h, moved_to) refl

pub find_session-assign_self :
    (ss : List Session) (x : ℕ) (v : Option ℕ) {s : Session}
    → find_session ss x ≡ some s
    → find_session (assign x v ss) x ≡ some (record s { room = v })
find_session-assign_self [] x v e = cc
find_session-assign_self (t ∷ ss) x v {s} e = elim (Bool-cases (t.id == x)) [
  | inl h ↦
      let same : t ≡ s = some_inj (rw h at e) in
      rw (moved_self x v t h) (rw h (ap {A = Session} (λ u. some (record u { room = v })) same))
  | inr h ↦ rw (moved_ne x v t h) (rw h (find_session-assign_self ss x v (rw h at e)))
]

pub find_session-assign_ne :
    (ss : List Session) (x y : ℕ) (v : Option ℕ)
    → y ≢ x
    → find_session (assign x v ss) y ≡ find_session ss y
find_session-assign_ne [] x y v n = refl
find_session-assign_ne (t ∷ ss) x y v n = elim (Bool-cases (t.id == x)) [
  | inl h ↦
      let other : (t.id == y) ≡ false = ground (arith, h, n) in
      rw (moved_self x v t h) rw other (find_session-assign_ne ss x y v n)
  | inr h ↦ rw (moved_ne x v t h) (elim (Bool-cases (t.id == y)) [
    | inl k ↦ rw k refl
    | inr k ↦ rw k (find_session-assign_ne ss x y v n)
  ])
]

pub find_session-drop_ne :
    (ss : List Session) (x y : ℕ) → y ≢ x → find_session (drop_session x ss) y ≡ find_session ss y
find_session-drop_ne [] x y n = refl
find_session-drop_ne (t ∷ ss) x y n = elim (Bool-cases (t.id == x)) [
  | inl h ↦
      let other : (t.id == y) ≡ false = ground (arith, h, n) in
      rw h rw other (find_session-drop_ne ss x y n)
  | inr h ↦ rw h (elim (Bool-cases (t.id == y)) [
    | inl k ↦ rw k refl
    | inr k ↦ rw k (find_session-drop_ne ss x y n)
  ])
]

pub find_session-drop_self : (ss : List Session) (x : ℕ) → find_session (drop_session x ss) x ≡ none
find_session-drop_self [] x = refl
find_session-drop_self (t ∷ ss) x = elim (Bool-cases (t.id == x)) [
  | inl h ↦ rw h (find_session-drop_self ss x)
  | inr h ↦ rw h rw h (find_session-drop_self ss x)
]

pub location-assign_self :
    (ss : List Session) (x : ℕ) (v : Option ℕ) {s : Session}
    → find_session ss x ≡ some s
    → location (assign x v ss) x ≡ v
location-assign_self ss x v e = location_lem (assign x v ss) x (find_session-assign_self ss x v e)

pub location-assign_ne :
    (ss : List Session) (x y : ℕ) (v : Option ℕ)
    → y ≢ x
    → location (assign x v ss) y ≡ location ss y
location-assign_ne ss x y v n = ap room_in (find_session-assign_ne ss x y v n)

pub location-drop_ne :
    (ss : List Session) (x y : ℕ) → y ≢ x → location (drop_session x ss) y ≡ location ss y
location-drop_ne ss x y n = ap room_in (find_session-drop_ne ss x y n)

pub location-drop_self : (ss : List Session) (x : ℕ) → location (drop_session x ss) x ≡ none
location-drop_self ss x = ap room_in (find_session-drop_self ss x)

module _ {r : Rand} where
  pub room_of-some :
      (es : List (Entry r)) (i : ℕ) {e : Entry r} → room_of es i ≡ some e → (e.id ≡ i) × (e ∈ es)
  room_of-some [] i h = cc
  room_of-some (d ∷ es) i {e} h = elim (Bool-cases (d.id == i)) [
    | inl k ↦
        let same : d ≡ e = some_inj (rw k at h) in (rw (← same) (ground arith), inl (sym same))
    | inr k ↦ let (named, m) = room_of-some es i (rw k at h) in (named, inr m)
  ]

  replaced_self : (e d : Entry r) → (d.id == e.id) ≡ true → replaced e d ≡ e
  replaced_self e d h = rw (h, replaced) refl

  replaced_ne : (e d : Entry r) → (d.id == e.id) ≡ false → replaced e d ≡ d
  replaced_ne e d h = rw (h, replaced) refl

  pub room_of-put_self :
      (es : List (Entry r)) (e : Entry r) {d : Entry r}
      → room_of es e.id ≡ some d
      → room_of (put_room e es) e.id ≡ some e
  room_of-put_self [] e h = cc
  room_of-put_self (c ∷ es) e h = elim (Bool-cases (c.id == e.id)) [
    | inl k ↦
        let same : (e.id == e.id) ≡ true = ground arith in rw (replaced_self e c k) rw same refl
    | inr k ↦ rw (replaced_ne e c k) rw k (room_of-put_self es e (rw k at h))
  ]

  pub room_of-put_ne :
      (es : List (Entry r)) (e : Entry r) (j : ℕ)
      → j ≢ e.id
      → room_of (put_room e es) j ≡ room_of es j
  room_of-put_ne [] e j n = refl
  room_of-put_ne (c ∷ es) e j n = elim (Bool-cases (c.id == e.id)) [
    | inl k ↦
        let other : (e.id == j) ≡ false = ground (arith, n) in
        let left : (c.id == j) ≡ false = ground (arith, k, n) in
        rw (replaced_self e c k) rw other rw left (room_of-put_ne es e j n)
    | inr k ↦ rw (replaced_ne e c k) (elim (Bool-cases (c.id == j)) [
      | inl q ↦ rw q refl
      | inr q ↦ rw q (room_of-put_ne es e j n)
    ])
  ]

  pub room_of-delete_ne :
      (es : List (Entry r)) (i j : ℕ) → j ≢ i → room_of (delete_room i es) j ≡ room_of es j
  room_of-delete_ne [] i j n = refl
  room_of-delete_ne (c ∷ es) i j n = elim (Bool-cases (c.id == i)) [
    | inl k ↦
        let other : (c.id == j) ≡ false = ground (arith, k, n) in
        rw k rw other (room_of-delete_ne es i j n)
    | inr k ↦ rw k (elim (Bool-cases (c.id == j)) [
      | inl q ↦ rw q refl
      | inr q ↦ rw q (room_of-delete_ne es i j n)
    ])
  ]
