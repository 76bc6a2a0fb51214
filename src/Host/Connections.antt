-- ===== src/Host/Connections.antt =====
-- The connections of the server in internal/host/host.go. net.SplitHostPort and net.ParseIP are
-- parameters.
use bomber_cli.Base.{
  ℕ, ◌+◌, ◌*◌, ◌<◌, ◌≤◌, ◌==◌, leb, ◌≡◌, refl, ap, inl, inr, arith, if◌then◌else◌, Bool, true,
  false, not, ◌||◌, Option, none, some, List, [], ◌∷◌, length, keep, keep-Sublist, length-Sublist,
  Text, Bool-cases, Option-cases,
}
use bomber_cli.Room.Names.{name_eq}
use bomber_cli.Room.Names.Unused.{name_eq_sound}
use bomber_cli.Host.Budget.{ByteBudget, new_byte_budget, allow}

-- A connection is named by a number; what the SSH library does with it is left out.
pub record Connection : Type 0 where
  pub id : ℕ
  pub ip : Text
  pub ingress : ByteBudget

pub record Host : Type 0 where
  pub conns : List Connection
  pub stopping : Bool
  pub limit : ℕ
  pub per_ip : ℕ
  pub admission : ByteBudget

abbrev pub new_host : ℕ → ℕ → ℕ → Host
new_host limit per_ip now = record {
  conns = [];
  stopping = false;
  limit = limit;
  per_ip = per_ip;
  admission = new_byte_budget 20 128 now;
}

-- The loop that counts the connections from one address.
abbrev pub count_ip : Text → List Connection → ℕ
count_ip ip [] = 0
count_ip ip (c ∷ cs) = (if name_eq c.ip ip then 1 else 0) + count_ip ip cs

-- delete(c.host.conns, c)
abbrev pub drop_connection : ℕ → List Connection → List Connection
drop_connection id cs = keep (λ c. not (c.id == id)) cs

abbrev pub connection_of : ℕ → Text → ℕ → Connection
connection_of id ip now = record {
  id = id;
  ip = ip;
  ingress = new_byte_budget (64 * 1024) (256 * 1024) now;
}

abbrev pub admitted : ℕ → ℕ → Text → Host → ByteBudget × Bool → Host × Option Connection
admitted now id ip h (b, false) = (record h { admission = b }, none)
admitted now id ip h (b, true) = (
  record h { admission = b; conns = connection_of id ip now ∷ h.conns },
  some (connection_of id ip now),
)

abbrev pub admit : ℕ → ℕ → Text → Host → Host × Option Connection
admit now id ip h =
    if leb h.per_ip (count_ip ip h.conns)
    then (h, none)
    else admitted now id ip h (allow 1 now h.admission)

abbrev pub canonical : (Text → Option Text) → Text → Text
canonical parse_ip ip = elim (parse_ip ip) [ none ↦ ip | some parsed ↦ parsed ]

module _ (split_host : Text → Option Text) (parse_ip : Text → Option Text) where
  unfoldable pub accept_connection : ℕ → ℕ → Text → Host → Host × Option Connection
  accept_connection now id address h =
      if h.stopping || leb h.limit (length h.conns) then (h, none) else (elim (split_host address) [
        | none ↦ (h, none)
        | some ip ↦ admit now id (canonical parse_ip ip) h
      ])

-- `Close` of a connection.
abbrev pub close_connection : ℕ → Host → Host
close_connection id h = record h { conns = drop_connection id h.conns }

-- `Close` of the server: every connection is closed.
abbrev pub close : Host → Host
close h = record h { stopping = true; conns = [] }

-- The limits of the connections.
pub record IsLimited (h : Host) : Type 0 where
  pub few : length h.conns ≤ h.limit
  pub few_of : (ip : Text) → count_ip ip h.conns ≤ h.per_ip

-- What becomes of a connection: it is turned away and none is added, or it is added under its address.
pub data AcceptOutcome (h : Host) : Host × Option Connection → Type 0 where
  turned_away : (h' : Host) → h'.conns ≡ h.conns → IsLimited h' → AcceptOutcome h (h', none)
  let_in :
      (h' : Host) (c : Connection)
      → h.stopping ≡ false
      → h'.conns ≡ c ∷ h.conns
      → IsLimited h'
      → AcceptOutcome h (h', some c)

none_of : (p q : Bool) → (p || q) ≡ false → (p ≡ false) × (q ≡ false)
none_of true q e = cc
none_of false q e = (refl, e)

module _ (h : Host) (l : IsLimited h) where
  admit-AcceptOutcome :
      (now id : ℕ) (ip : Text)
      → h.stopping ≡ false
      → length h.conns < h.limit
      → AcceptOutcome h (admit now id ip h)
  admit-AcceptOutcome now id ip on few = elim (Bool-cases (leb h.per_ip (count_ip ip h.conns))) [
    | inl e ↦ rw e (turned_away h refl l)
    | inr e ↦ rw e (asked (allow 1 now h.admission) (ground (arith, e)))
  ]
    where
      counted :
          (other : Text)
          → count_ip ip h.conns < h.per_ip
          → (if name_eq ip other then 1 else 0) + count_ip other h.conns ≤ h.per_ip
      counted other lt = elim (Bool-cases (name_eq ip other)) [
        | inl e ↦
            let same : ip ≡ other = name_eq_sound ip other e in
            rw e (omega (arith, ap (λ a. count_ip a h.conns) same, lt))
        | inr e ↦ rw e (omega (arith, l.few_of other))
      ]

      asked :
          (q : ByteBudget × Bool)
          → count_ip ip h.conns < h.per_ip
          → AcceptOutcome h (admitted now id ip h q)
      asked (b, false) lt =
          turned_away (record h { admission = b }) refl (record { few = l.few; few_of = l.few_of })
      asked (b, true) lt =
          let_in _ (connection_of id ip now) on refl
            (record { few = omega arith; few_of = λ other. counted other lt })

  -- Within the limits, a connection is turned away and none is added, or it is added; the server is
  -- within its limits again, in all and for each address. A server that stops lets none in.
  pub accept_connection-AcceptOutcome :
      (split_host parse_ip : Text → Option Text) (now id : ℕ) (address : Text)
      → AcceptOutcome h (accept_connection split_host parse_ip now id address h)
  unfolding accept_connection
  accept_connection-AcceptOutcome split_host parse_ip now id address =
      elim (Bool-cases (h.stopping || leb h.limit (length h.conns))) [
        | inl e ↦ rw (e, accept_connection) (turned_away h refl l)
        | inr e ↦ elim (Option-cases (split_host address)) [
          | inl f ↦ rw (e, accept_connection) rw f (turned_away h refl l)
          | inr (ip, f) ↦
              rw (e, accept_connection) rw f
                (admit-AcceptOutcome now id (canonical parse_ip ip)
                  (none_of h.stopping (leb h.limit (length h.conns)) e).0
                  (ground (arith, (none_of h.stopping (leb h.limit (length h.conns)) e).1)))
        ]
      ]

  close_connection-IsLimited : (id : ℕ) → IsLimited (close_connection id h)
  close_connection-IsLimited id = record {
    few = omega (arith, length-Sublist (keep-Sublist (λ c. not (c.id == id)) h.conns), l.few);
    few_of = λ ip. omega (arith, fewer ip h.conns, l.few_of ip);
  }
    where
      fewer :
          (ip : Text) (cs : List Connection) → count_ip ip (drop_connection id cs) ≤ count_ip ip cs
      fewer ip [] = omega arith
      fewer ip (c ∷ cs) = elim (Bool-cases (c.id == id)) [
        | inl e ↦ rw e (omega (arith, fewer ip cs))
        | inr e ↦ rw e (omega (arith, fewer ip cs))
      ]

-- The states of a server with these limits.
pub data Listens (split_host parse_ip : Text → Option Text) (limit per_ip : ℕ) : Host → Type 0 where
  started : (now : ℕ) → Listens split_host parse_ip limit per_ip (new_host limit per_ip now)
  called :
      (now id : ℕ) (address : Text) (h : Host)
      → Listens split_host parse_ip limit per_ip h
      → Listens split_host parse_ip limit per_ip
          (accept_connection split_host parse_ip now id address h).0
  hung_up :
      (id : ℕ) (h : Host)
      → Listens split_host parse_ip limit per_ip h
      → Listens split_host parse_ip limit per_ip (close_connection id h)
  stopped :
      (h : Host)
      → Listens split_host parse_ip limit per_ip h
      → Listens split_host parse_ip limit per_ip (close h)

AcceptOutcome-IsLimited :
    (h : Host) (q : Host × Option Connection) → AcceptOutcome h q → IsLimited q.0
AcceptOutcome-IsLimited h _ (turned_away h' _ l) = l
AcceptOutcome-IsLimited h _ (let_in h' c _ _ l) = l

-- However connections come and go, whatever their addresses, a server that listens is within its limits,
-- in all and for each address.
pub Listens-IsLimited :
    (split_host parse_ip : Text → Option Text) (limit per_ip : ℕ) (h : Host)
    → Listens split_host parse_ip limit per_ip h
    → IsLimited h
Listens-IsLimited sh pi limit per_ip _ (started now) = record {
  few = omega arith;
  few_of = λ ip. omega arith;
}
Listens-IsLimited sh pi limit per_ip _ (called now id address h x) = AcceptOutcome-IsLimited h _ (
    accept_connection-AcceptOutcome h (Listens-IsLimited sh pi limit per_ip h x) sh pi now id
      address)
Listens-IsLimited sh pi limit per_ip _ (hung_up id h x) =
    close_connection-IsLimited h (Listens-IsLimited sh pi limit per_ip h x) id
Listens-IsLimited sh pi limit per_ip _ (stopped h x) = record {
  few = omega arith;
  few_of = λ ip. omega arith;
}
