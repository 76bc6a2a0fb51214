-- ===== src/Ui/Screen.antt =====
-- `View` of internal/ui/render.go.
use bomber_cli.Base.{
  ℕ, sym, ok, ◌≡◌, refl, inl, inr, Bool, true, false, ◌||◌, Option, none, some, ◌++◌, Text, subst,
  Bool-cases, Returns, Returns-ok, Returns-bind,
}
use bomber_cli.Room.Types.{Snapshot}
use bomber_cli.Room.Rules.{is_playing}
use bomber_cli.Game.Invariant.{IsValid}
use bomber_cli.Ui.Model.{Model, is_small}
use bomber_cli.Ui.Render.{
  is_result, resize_text, header, room_board, render_room, room_heading, render_members,
  room_instructions, render_lobby, shown_room, large_view, view,
}
use bomber_cli.Ui.Invariant.{IsUsable, IsShown}
use bomber_cli.Ui.Cells.{render_board-Returns}

-- The game of a snapshot is valid while it is shown.
abbrev pub IsDrawable : Option Snapshot → Type 0
IsDrawable none = Unit {0}
IsDrawable (some s) = is_playing s.phase || is_result s.phase ≡ true → IsValid s.game

abbrev Anything : Text → Type 0
Anything s = Unit {0}

room_board-Returns :
    (s : Snapshot) (color : Bool) → IsDrawable (some s) → Returns Anything (room_board s color)
unfolding room_board
room_board-Returns s color d = elim (Bool-cases (is_playing s.phase || is_result s.phase)) [
  | inl e ↦ rw e (render_board-Returns s.game (d e) color)
  | inr e ↦ rw e (Returns-ok _ tt)
]

shown_room-Returns :
    (m : Model) (i : ℕ) (o : Option Snapshot)
    → IsShown (some i) o
    → IsDrawable o
    → Returns
        (λ body.
          (s : Snapshot) × (board : Text) × (o ≡ some s)
          × (s.id ≡ i)
          × (room_board s m.color ≡ ok board)
          × (body
              ≡ room_heading s m.now
                ++ board
                ++ render_members m.session.id s
                ++ room_instructions s))
        (shown_room m o)
unfolding render_room
shown_room-Returns m i none h d = absurd h
shown_room-Returns m i (some s) h d =
    let board = room_board-Returns s m.color d in
    rw (board.returns) (Returns-ok _ (s, board.value, refl, h, board.returns, refl))

-- What a session sees: the advice to resize, the lobby, or its room with the board of the game.
pub data IsScreen (m : Model) : Text → Type 0 where
  too_small : is_small m ≡ true → IsScreen m (resize_text m.width m.height)
  in_lobby : is_small m ≡ false → m.room ≡ none → IsScreen m (header m ++ render_lobby m)
  in_room :
      (i : ℕ) (s : Snapshot) (board : Text)
      → is_small m ≡ false
      → m.room ≡ some i
      → m.snapshot ≡ some s
      → s.id ≡ i
      → room_board s m.color ≡ ok board
      → IsScreen m (
          header m
          ++ (room_heading s m.now
              ++ board
              ++ render_members m.session.id s
              ++ room_instructions s))

-- The view of a usable model returns if the game that it shows is valid. It is the advice to resize
-- exactly when the window is too small, else the lobby while the session is in no room, else the heading,
-- the board, the members and the instructions of the snapshot of its room.
pub view-IsScreen : (m : Model) → IsUsable m → IsDrawable m.snapshot → Returns (IsScreen m) (view m)
unfolding view
view-IsScreen m u d = elim (Bool-cases (is_small m)) [
  | inl e ↦ rw (e, view) (Returns-ok _ (too_small e))
  | inr e ↦ rw (e, view) (large e m.room refl)
]
  where
    large : is_small m ≡ false → (o : Option ℕ) → m.room ≡ o → Returns (IsScreen m) (large_view m o)
    large e none f = Returns-ok _ (in_lobby e f)
    large e (some i) f =
        Returns-bind _ (IsScreen m) _
          (shown_room-Returns m i m.snapshot (subst (λ o. IsShown o m.snapshot) f u.shown) d)
          λ body (s, board, at, same, drawn, told). Returns-ok _ (
            subst (λ t. IsScreen m (header m ++ t)) (sym told)
              (in_room i s board e f at same drawn))
