-- ===== src/Room/Types.antt =====
-- The data of internal/room/room.go.
use bomber_cli.Base.{[], Text, ℕ, Bool, false, List}
use bomber_cli.Game.Types.{View}

pub data Phase : Type 0 where
  waiting countdown playing result : Phase

pub record Member : Type 0 where
  pub id : ℕ
  pub name : Text
  pub ready : Bool
  pub score : ℕ

-- Member{}
abbrev pub empty_member : Member
empty_member = record { id = 0; name = []; ready = false; score = 0 }

-- `members` is the array [game.MaxPlayers]Member.
pub record Snapshot : Type 0 where
  pub id : ℕ
  pub phase : Phase
  pub members : List Member
  pub count : ℕ
  pub deadline : ℕ
  pub game : View
  pub message : Text

-- An Action is a uint8: `unknown` stands for the values above Bomb.
pub data Action : Type 0 where
  ready up down left right bomb unknown : Action

pub record Command : Type 0 where
  pub id : ℕ
  pub action : Action
