-- ===== src/Ui/Lines.antt =====
-- The screens of internal/ui/render.go fit into the window.
use bomber_cli.Base.{
  ℕ, zero, suc, ◌+◌, ◌-◌, ◌/◌, ◌<◌, ◌≤◌, ◌==◌, ◌≡◌, refl, inl, inr, arith, Bool, false, ◌||◌,
  if◌then◌else◌, Option, none, some, List, [], ◌∷◌, ◌++◌, length, All, Text, codes, replicate,
  Bool-cases, ok, Returns,
}
use bomber_cli.Game.Types.{Player, millisecond}
use bomber_cli.Room.Types.{Phase, waiting, countdown, playing, result, Member, Snapshot}
use bomber_cli.Room.Rules.{is_waiting, is_countdown, is_playing}
use bomber_cli.Ui.Model.{Model, is_small}
use bomber_cli.Ui.Board.{render_board}
use bomber_cli.Ui.Render.{
  concat, is_result, render_lobby, room_heading, room_board, room_instructions, own_status,
  playing_status, member_status, member_line, member_lines, render_members, render_room, header,
  shown_room, large_view, view,
}
use bomber_cli.Ui.Invariant.{IsUsable}
use bomber_cli.Ui.Screen.{IsDrawable, IsScreen, view-IsScreen}
use bomber_cli.Ui.Height.{
  IfOk-map, Returns-IfOk, newlines, newlines-append, newlines-decimal, IfOk, IfOk-bind,
  render_board-newlines,
}
use bomber_cli.Ui.Texts.{IsPlain, header-newlines, lobby-newlines, heading-newlines}

own_plain : (q : Player) → IsPlain (own_status q)
own_plain q =
    simp newlines-append rw (newlines-decimal q.capacity) rw (newlines-decimal q.range) rw
      (newlines-decimal (q.cooldown / millisecond)) (omega arith)

playing_plain :
    (session id i : ℕ) (qs : List Player) (told : ℕ × Text)
    → IsPlain told.1
    → IsPlain (playing_status session id i qs told).1
playing_plain session id i [] told h = h
playing_plain session id i (q ∷ qs) (number, status) h =
    playing_plain session id (i + 1) qs _ (elim (Bool-cases (q.id == id)) [
      | inl e ↦ rw e (elim (Bool-cases (id == session)) [
        | inl f ↦ rw f (omega (arith, newlines-append seen (own_status q), seen_plain, own_plain q))
        | inr f ↦ rw f seen_plain
      ])
      | inr e ↦ rw e h
    ])
  where
    seen : Text
    seen = if q.alive then codes "alive" else status

    seen_plain : IsPlain seen
    seen_plain = elim (Bool-cases q.alive) [ inl e ↦ rw e refl | inr e ↦ rw e h ]

status_plain :
    (session : ℕ) (s : Snapshot) (i : ℕ) (m : Member) → IsPlain (member_status session s i m).1
status_plain session s i m = elim (Bool-cases (is_playing s.phase || is_result s.phase)) [
  | inl e ↦ rw e (playing_plain session m.id 0 s.game.players (i + 1, codes "out") refl)
  | inr e ↦ rw e (elim (Bool-cases m.ready) [ inl f ↦ rw f refl | inr f ↦ rw f refl ])
]

spaces_plain : (n : ℕ) → IsPlain (replicate n 32)
spaces_plain zero = refl
spaces_plain (suc n) = omega (arith, spaces_plain n)

member_line-newlines :
    (number : ℕ) (status : Text) (m : Member)
    → IsPlain status
    → IsPlain m.name
    → newlines (member_line (number, status) m) ≡ 1
member_line-newlines number status m h k =
    simp newlines-append rw (newlines-decimal number) rw k rw (spaces_plain (20 - length m.name)) rw
      (newlines-decimal m.score) rw h (omega arith)

members-newlines :
    (session : ℕ) (s : Snapshot) (i : ℕ) (ms : List Member)
    → All (λ m. IsPlain m.name) ms
    → newlines (concat (member_lines session s i ms)) ≤ length ms
members-newlines session s i [] h = omega arith
members-newlines session s i (m ∷ ms) h =
    let rest = members-newlines session s (i + 1) ms h.1 in
    elim (Bool-cases (m.id == 0)) [
      | inl e ↦ rw e (omega (arith, rest))
      | inr e ↦ rw e (
          let (number, status) = member_status session s i m in
          let line = member_line (member_status session s i m) m in
          omega (
            arith,
            rest,
            newlines-append line (concat (member_lines session s (i + 1) ms)),
            member_line-newlines number status m (status_plain session s i m) h.0,
          ))
    ]

-- Nothing that a player or a round brings into a screen breaks a line.
pub record IsTidy (m : Model) : Type 0 where
  pub name : IsPlain m.session.name
  pub notice : IsPlain m.notice
  pub messages : (s : Snapshot) → m.snapshot ≡ some s → IsPlain s.message
  pub names : (s : Snapshot) → m.snapshot ≡ some s → All (λ q. IsPlain q.name) s.members
  pub seats : (s : Snapshot) → m.snapshot ≡ some s → length s.members ≤ 4

-- The board and the instructions: with a board there are fewer instructions.
body-newlines :
    (s : Snapshot) (color : Bool)
    → IsPlain s.message
    → IfOk (λ board. newlines board + newlines (room_instructions s) ≤ 15) (room_board s color)
unfolding room_board room_instructions
body-newlines s color h = by_phase s.phase
  where
    message : Text → Text
    message t = elim t [ [] ↦ [] | c ∷ cs ↦ (c ∷ cs) ++ 10 ∷ [] ]

    spoken : (t : Text) → IsPlain t → newlines (message t) ≤ 1
    spoken [] h = omega arith
    spoken (c ∷ cs) h = omega (arith, newlines-append (c ∷ cs) (10 ∷ []), h)

    moves : Text
    moves = codes "WASD/arrows: move | Space: bomb | Enter: ready"

    leaves : Text
    leaves = 10 ∷ codes "Esc: leave | Ctrl-C: disconnect"

    first : Phase → Text
    first p =
        if is_waiting p || is_countdown p
        then 10 ∷ codes "Enter: toggle ready (2-4 players, all must be ready)" ++ 10 ∷ []
        else []

    Short : Phase → Text → Type 0
    Short p board = newlines board + newlines (first p ++ message s.message ++ moves ++ leaves) ≤ 15

    parts :
        (p : Phase)
        → newlines (first p ++ message s.message ++ moves ++ leaves) ≤ newlines (first p) + 2
    parts p = omega (
      arith,
      newlines-append (first p ++ message s.message ++ moves) leaves,
      newlines-append (first p ++ message s.message) moves,
      newlines-append (first p) (message s.message),
      spoken s.message h,
    )

    with_board : (p : Phase) → newlines (first p) ≡ 0 → IfOk (Short p) (render_board s.game color)
    with_board p e =
        IfOk-map (λ board. newlines board ≡ 13) (Short p) (render_board s.game color)
          (λ board n. omega (arith, n, parts p, e)) (render_board-newlines s.game color)

    by_phase :
        (p : Phase)
        → IfOk (Short p) (if is_playing p || is_result p then render_board s.game color else ok [])
    by_phase waiting = omega (arith, parts waiting)
    by_phase countdown = omega (arith, parts countdown)
    by_phase playing = with_board playing refl
    by_phase result = with_board result refl

room-newlines :
    (m : Model) (s : Snapshot)
    → IsPlain s.message
    → All (λ q. IsPlain q.name) s.members
    → length s.members ≤ 4
    → IfOk (λ t. newlines t ≤ 20) (render_room m s)
unfolding render_room render_members
room-newlines m s message names seats =
    IfOk-bind (λ board. newlines board + newlines (room_instructions s) ≤ 15) (λ t. newlines t ≤ 20)
      (room_board s m.color) _ (body-newlines s m.color message)
      λ board few.
        let members = concat (member_lines m.session.id s 0 s.members) in
        let heading = room_heading s m.now in
        omega (
          arith,
          few,
          seats,
          members-newlines m.session.id s 0 s.members names,
          heading-newlines s m.now,
          newlines-append (heading ++ board ++ members) (room_instructions s),
          newlines-append (heading ++ board) members,
          newlines-append heading board,
        )

-- A screen with a line for each newline and one more fits into the window.
abbrev pub FitsHeight : Model → Text → Type 0
FitsHeight m t = newlines t < m.height

view-FitsHeight : (m : Model) → IsTidy m → is_small m ≡ false → IfOk (FitsHeight m) (view m)
unfolding view
view-FitsHeight m tidy large = rw (large, view) (by_room m.room)
  where
    tall : 24 ≤ m.height
    tall = ground (arith, large)

    header_and : (t : Text) → newlines (header m ++ t) ≡ 2 + newlines t
    header_and t = omega (arith, newlines-append (header m) t, header-newlines m tidy.name)

    shown : (o : Option Snapshot) → m.snapshot ≡ o → IfOk (λ t. newlines t ≤ 20) (shown_room m o)
    shown none e = omega arith
    shown (some s) e = room-newlines m s (tidy.messages s e) (tidy.names s e) (tidy.seats s e)

    by_room : (o : Option ℕ) → IfOk (FitsHeight m) (large_view m o)
    by_room none = omega (arith, tall, header_and (render_lobby m), lobby-newlines m tidy.notice)
    by_room (some i) =
        IfOk-bind (λ t. newlines t ≤ 20) (FitsHeight m) (shown_room m m.snapshot) _
          (shown m.snapshot refl) λ body few. omega (arith, tall, few, header_and body)

-- In a window that is at least 60 wide and 24 high, the view of a usable model returns and is not higher
-- than the window, if the game that it shows is valid, the room has at most four members, and neither
-- names nor messages break a line.
pub view-Returns-FitsHeight :
    (m : Model)
    → IsUsable m
    → IsDrawable m.snapshot
    → IsTidy m
    → is_small m ≡ false
    → Returns (FitsHeight m) (view m)
view-Returns-FitsHeight m usable drawable tidy large =
    Returns-IfOk (IsScreen m) (FitsHeight m) (view m) (view-IsScreen m usable drawable)
      (view-FitsHeight m tidy large)
