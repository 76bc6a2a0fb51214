-- ===== src/Ui/Texts.antt =====
-- The lines of the lobby, of the header and of the heading of a room in internal/ui/render.go.
use bomber_cli.Base.{
  ℕ, pos, zero, suc, ◌+◌, ◌-◌, ◌≤◌, ◌==◌, ◌≡◌, refl, inl, inr, arith, List, [], ◌∷◌, map, All, Text,
  codes, Bool-cases, drop, ltb, sub_ℕ, ◌-ℤ◌,
}
use bomber_cli.Game.Types.{round_duration}
use bomber_cli.Room.Types.{Phase, waiting, countdown, playing, result, Snapshot}
use bomber_cli.Room.Rules.{is_countdown, is_playing}
use bomber_cli.Ui.Model.{Model}
use bomber_cli.Ui.Render.{
  phase_text, upper, concat, room_option, lobby_options, option_line, option_lines, first_option,
  visible_lobby_options, render_lobby, seconds, room_heading, header,
}
use bomber_cli.Ui.Height.{newlines, newlines-append, newlines-decimal, newlines-paint}

abbrev pub IsPlain : Text → Type 0
IsPlain s = newlines s ≡ 0

pub phase_plain : (p : Phase) → IsPlain (phase_text p) × IsPlain (upper (phase_text p))
phase_plain waiting = (refl, refl)
phase_plain countdown = (refl, refl)
phase_plain playing = (refl, refl)
phase_plain result = (refl, refl)

option_plain : (s : Snapshot) → IsPlain (room_option s)
option_plain s =
    simp newlines-append rw (newlines-decimal s.id) rw (newlines-decimal s.count) rw
      ((phase_plain s.phase).0) (omega arith)

options_plain : (rooms : List Snapshot) → All IsPlain (lobby_options rooms)
options_plain rooms = (refl, (refl, each rooms))
  where
    each : (rooms : List Snapshot) → All IsPlain (map room_option rooms)
    each [] = tt
    each (s ∷ ss) = (option_plain s, each ss)

All-drop : (n : ℕ) (ss : List Text) → All IsPlain ss → All IsPlain (drop n ss)
All-drop zero ss h = h
All-drop (suc n) [] h = tt
All-drop (suc n) (s ∷ ss) h = All-drop n ss h.1

option_line-newlines :
    (selected i : ℕ) (o : Text) → IsPlain o → newlines (option_line selected i o) ≡ 1
option_line-newlines selected i o h = elim (Bool-cases (i == selected)) [
  | inl e ↦ rw e (simp newlines-append rw h refl)
  | inr e ↦ rw e (simp newlines-append rw h refl)
]

option_lines-newlines :
    (selected stop i : ℕ) (os : List Text)
    → All IsPlain os
    → newlines (concat (option_lines selected stop i os)) ≤ stop - i
option_lines-newlines selected stop i [] h = omega arith
option_lines-newlines selected stop i (o ∷ os) h = elim (Bool-cases (ltb i stop)) [
  | inl e ↦ rw e (
      let rest = option_lines-newlines selected stop (i + 1) os h.1 in
      let one = option_line-newlines selected i o h.0 in
      let both =
        newlines-append (option_line selected i o)
          (concat (option_lines selected stop (i + 1) os)) in
      ground (arith, e, rest, one, both))
  | inr e ↦ rw e (omega arith)
]

pub header-newlines : (m : Model) → IsPlain m.session.name → newlines (header m) ≡ 2
header-newlines m h =
    simp newlines-append rw (newlines-paint (codes "BOMBER / SSH") 36 m.color) rw h (omega arith)

pub lobby-newlines :
    (m : Model) → IsPlain m.notice → newlines (render_lobby m) ≤ 5 + (m.height - 10)
unfolding render_lobby visible_lobby_options
lobby-newlines m h =
    let start = first_option m.selected (m.height - 10) in
    let shown =
      option_lines-newlines m.selected (start + (m.height - 10)) start
        (drop start (lobby_options m.rooms))
        (All-drop start (lobby_options m.rooms) (options_plain m.rooms)) in
    simp newlines-append rw h (omega (arith, shown))

pub heading-newlines : (s : Snapshot) (now : ℕ) → newlines (room_heading s now) ≡ 1
unfolding room_heading
heading-newlines s now = elim (Bool-cases (is_countdown s.phase)) [
  | inl e ↦ rw e (
      simp newlines-append rw (newlines-decimal s.id) rw ((phase_plain s.phase).1) rw
        (newlines-decimal (seconds (sub_ℕ s.deadline now))) (omega arith))
  | inr e ↦ rw e (elim (Bool-cases (is_playing s.phase)) [
    | inl f ↦ rw f (
        simp newlines-append rw (newlines-decimal s.id) rw ((phase_plain s.phase).1) rw
          (newlines-decimal (seconds (pos round_duration -ℤ sub_ℕ now s.game.started)))
          (omega arith))
    | inr f ↦
        rw f (
          simp newlines-append rw (newlines-decimal s.id) rw ((phase_plain s.phase).1)
            (omega arith))
  ])
]
