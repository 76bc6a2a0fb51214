-- ===== src/Room/Rules.antt =====
-- The pure rules of internal/room/rules.go.
use bomber_cli.Base.{
  Text, codes, ◌++◌, ℕ, ◌+◌, ◌-◌, ◌*◌, ◌==◌, ltb, leb, if◌then◌else◌, Bool, true, false, not, ◌&&◌,
  Option, none, some, List, [], ◌∷◌, map, get_elem?, set, index_of, Result, ok, or_panic, ◌>>=◌,
}
use bomber_cli.Game.Types.{max_players, second, zero_time}
use bomber_cli.Room.Types.{
  Phase, waiting, countdown, playing, result, Member, Snapshot, empty_member,
}

abbrev pub is_waiting : Phase → Bool
is_waiting waiting = true
is_waiting _ = false

abbrev pub is_countdown : Phase → Bool
is_countdown countdown = true
is_countdown _ = false

abbrev pub is_playing : Phase → Bool
is_playing playing = true
is_playing _ = false

-- The loop of `allReady`.
none_unready : List Member → Bool
none_unready [] = true
none_unready (m ∷ ms) = if not (m.id == 0) && not m.ready then false else none_unready ms

unfoldable pub all_ready : Snapshot → Bool
unfolding none_unready
all_ready s = if ltb s.count 2 then false else none_unready s.members

-- The loop of `playerIDs`.
unfoldable pub ids_of : List Member → List ℕ
ids_of [] = []
ids_of (m ∷ ms) = if not (m.id == 0) then m.id ∷ ids_of ms else ids_of ms

unfoldable pub player_ids : Snapshot → List ℕ
unfolding ids_of
player_ids s = ids_of s.members

unfoldable pub member_index : List Member → ℕ → Option ℕ
member_index members id = index_of (λ m. m.id == id) members

pub data JoinError : Type 0 where
  round_in_progress room_is_full : JoinError

-- The error of `withMember` is nil on `none`.
unfoldable pub with_member : Snapshot → Member → Snapshot × Option JoinError
with_member s member =
    if not (is_waiting s.phase) && not (is_countdown s.phase)
    then (s, some round_in_progress)
    else if leb max_players s.count
    then (s, some room_is_full)
    else (
      elim (member_index s.members 0) [
        | none ↦ s
        | some index ↦ record s { members = set s.members index member; count = s.count + 1 }
      ],
      none,
    )

-- The count is an int that stays at least 0 on a valid snapshot.
unfoldable pub without_member : Snapshot → ℕ → Snapshot
without_member s id = elim (member_index s.members id) [
  | none ↦ s
  | some index ↦ record s { members = set s.members index empty_member; count = s.count - 1 }
]

abbrev pub unready : Member → Member
unready m = record m { ready = false }

unfoldable pub without_readiness : Snapshot → Snapshot
without_readiness s = record s { members = map unready s.members }

unfoldable pub without_countdown : Snapshot → Snapshot
without_countdown s =
    if is_countdown s.phase then record s { phase = waiting; deadline = zero_time } else s

unfoldable pub with_readiness_toggled : Snapshot → ℕ → Result Snapshot
unfolding without_countdown
with_readiness_toggled s index = do
  m ← or_panic (get_elem? s.members index)
  ok (
      without_countdown
        (record s { members = set s.members index (record m { ready = not m.ready }) }))

unfoldable pub countdown_snapshot : Snapshot → ℕ → Snapshot
countdown_snapshot s now = record s { phase = countdown; deadline = now + 3 * second; message = [] }

-- The loop of `resultSnapshot` over the members, with the message as its other variable.
unfoldable pub rewarded : List Member → ℕ → Text → List Member × Text
rewarded [] winner message = ([], message)
rewarded (m ∷ ms) winner message =
    let wins = not (m.id == 0) && m.id == winner in
    let (rest, last) = rewarded ms winner (if wins then m.name ++ codes " wins!" else message) in
    ((if wins then record m { score = m.score + 1 } else m) ∷ rest, last)

unfoldable pub result_snapshot : Snapshot → ℕ → ℕ → Snapshot
result_snapshot s winner now =
    let (members, message) = rewarded s.members winner (codes "Draw!") in
    record s { phase = result; deadline = now + 3 * second; members = members; message = message }

unfoldable pub waiting_snapshot : Snapshot → Snapshot
waiting_snapshot s = without_readiness (record s { phase = waiting })
