-- ===== src/Room/Channels/Feeds.antt =====
-- The snapshots that a room publishes to its members, and that the members read, over time.
use mathlib.Core.List.{append_assoc, append-nil}
use mathlib.Core.List.Sublistᴰ.{slnil, cons, cons-cons}
use bomber_cli.Base.{
  ℕ, ◌≡◌, ◌==◌, refl, sym, ◌∙◌, ◌⊎◌, inl, inr, Bool, if◌then◌else◌, Option, none, some, List, [],
  ◌∷◌, ◌++◌, map, All, Bool-cases, Sublistᴰ, Sublist-refl, Sublist-trans,
}
use bomber_cli.Room.Channels.{Feed, receive, publish, publish_lem}

abbrev pub last : {A : Type 0} → List A → Option A
last [] = none
last (x ∷ []) = some x
last (x ∷ y ∷ xs) = last (y ∷ xs)

-- The room publishes, or a subscriber reads.
pub data Beat (A : Type 0) : Type 0 where
  published : (ℕ → Bool × Bool) → A → Beat A
  reads : ℕ → Beat A

module _ {A : Type 0} where
  -- The loop of `publishSnapshot` over the subscribers; `moments` says for each when it reads.
  unfoldable pub publish_snapshot : (ℕ → Bool × Bool) → A → List (ℕ × Feed A) → List (ℕ × Feed A)
  publish_snapshot moments a [] = []
  publish_snapshot moments a ((id, f) ∷ fs) =
      (id, publish (moments id).0 (moments id).1 a f) ∷ publish_snapshot moments a fs

  -- The subscriber with the identifier reads its channel.
  unfoldable pub receive_of : ℕ → List (ℕ × Feed A) → List (ℕ × Feed A)
  receive_of i [] = []
  receive_of i ((id, f) ∷ fs) = (id, if id == i then receive f else f) ∷ receive_of i fs

  abbrev pub beats : List (Beat A) → List (ℕ × Feed A) → List (ℕ × Feed A)
  beats [] fs = fs
  beats (published moments a ∷ bs) fs = beats bs (publish_snapshot moments a fs)
  beats (reads i ∷ bs) fs = beats bs (receive_of i fs)

  -- What is published, oldest first.
  abbrev pub publications : List (Beat A) → List A
  publications [] = []
  publications (published moments a ∷ bs) = a ∷ publications bs
  publications (reads i ∷ bs) = publications bs

  abbrev pub slot_list : Option A → List A
  slot_list none = []
  slot_list (some a) = a ∷ []

  -- What the subscriber has read or can read.
  abbrev pub reached : Feed A → List A
  reached f = f.received ++ slot_list f.slot

  -- What reaches the subscriber is a part of the history, in its order, and the newest of both is the
  -- same.
  abbrev pub KeepsUp : List A → ℕ × Feed A → Type 0
  KeepsUp history q = Sublistᴰ (reached q.1) history × (last (reached q.1) ≡ last history)

  Sublist-snoc : {xs ys : List A} (a : A) → Sublistᴰ xs ys → Sublistᴰ (xs ++ a ∷ []) (ys ++ a ∷ [])
  Sublist-snoc a slnil = cons-cons refl slnil
  Sublist-snoc a (cons s) = cons (Sublist-snoc a s)
  Sublist-snoc a (cons-cons e s) = cons-cons e (Sublist-snoc a s)

  Sublist-prefix : (xs ys : List A) → Sublistᴰ xs (xs ++ ys)
  Sublist-prefix [] ys = nothing ys
    where
      nothing : (ys : List A) → Sublistᴰ [] ys
      nothing [] = slnil
      nothing (y ∷ ys) = cons (nothing ys)
  Sublist-prefix (x ∷ xs) ys = cons-cons refl (Sublist-prefix xs ys)

  last-snoc : (xs : List A) (a : A) → last (xs ++ a ∷ []) ≡ some a
  last-snoc [] a = refl
  last-snoc (x ∷ []) a = refl
  last-snoc (x ∷ y ∷ xs) a = last-snoc (y ∷ xs) a

  publish-KeepsUp :
      (history : List A) (id : ℕ) (early late : Bool) (a : A) (f : Feed A)
      → KeepsUp history (id, f)
      → KeepsUp (history ++ a ∷ []) (id, publish early late a f)
  publish-KeepsUp history id early late a f (part, newest) =
      let (slot, got) = publish_lem early late a f in
      rw slot (
        Sublist-snoc a (Sublist-trans part (before got)),
        last-snoc (publish early late a f).received a ∙ sym (last-snoc history a),
      )
    where
      before :
          ((publish early late a f).received ≡ f.received)
            ⊎ ((b : A) × (f.slot ≡ some b)
                × ((publish early late a f).received ≡ f.received ++ b ∷ []))
          → Sublistᴰ (publish early late a f).received (reached f)
      before (inl same) = rw same (Sublist-prefix f.received (slot_list f.slot))
      before (inr (b, was, same)) = rw same rw was (Sublist-refl (f.received ++ b ∷ []))

  receive-KeepsUp :
      (history : List A) (id : ℕ) (f : Feed A)
      → KeepsUp history (id, f)
      → KeepsUp history (id, receive f)
  receive-KeepsUp history id f k = taken f.slot f.received k
    where
      taken :
          (o : Option A) (xs : List A)
          → KeepsUp history (id, record { slot = o; received = xs })
          → KeepsUp history (id, receive (record { slot = o; received = xs }))
      taken none xs k = k
      taken (some a) xs k = rw (append-nil (xs ++ a ∷ [])) k

  publish_snapshot-KeepsUp :
      (history : List A) (moments : ℕ → Bool × Bool) (a : A) (fs : List (ℕ × Feed A))
      → All (KeepsUp history) fs
      → All (KeepsUp (history ++ a ∷ [])) (publish_snapshot moments a fs)
  unfolding publish_snapshot
  publish_snapshot-KeepsUp history moments a [] h = tt
  publish_snapshot-KeepsUp history moments a ((id, f) ∷ fs) h = (
    publish-KeepsUp history id (moments id).0 (moments id).1 a f h.0,
    publish_snapshot-KeepsUp history moments a fs h.1,
  )

  receive_of-KeepsUp :
      (history : List A) (i : ℕ) (fs : List (ℕ × Feed A))
      → All (KeepsUp history) fs
      → All (KeepsUp history) (receive_of i fs)
  unfolding receive_of
  receive_of-KeepsUp history i [] h = tt
  receive_of-KeepsUp history i ((id, f) ∷ fs) h = (
    elim (Bool-cases (id == i)) [
      | inl e ↦ rw e (receive-KeepsUp history id f h.0)
      | inr e ↦ rw e h.0
    ],
    receive_of-KeepsUp history i fs h.1,
  )

  pub beats-KeepsUp :
      (bs : List (Beat A)) (history : List A) (fs : List (ℕ × Feed A))
      → All (KeepsUp history) fs
      → All (KeepsUp (history ++ publications bs)) (beats bs fs)
  beats-KeepsUp [] history fs h = rw (append-nil history) h
  beats-KeepsUp (published moments a ∷ bs) history fs h =
      rw (← append_assoc history (a ∷ []) (publications bs)) (
        beats-KeepsUp bs (history ++ a ∷ []) (publish_snapshot moments a fs)
          (publish_snapshot-KeepsUp history moments a fs h))
  beats-KeepsUp (reads i ∷ bs) history fs h =
      beats-KeepsUp bs history (receive_of i fs) (receive_of-KeepsUp history i fs h)

  -- A member of a room that has received nothing yet.
  abbrev pub new_feed : ℕ → ℕ × Feed A
  new_feed id = (id, record { slot = none; received = [] })

  -- For members that begin with nothing in their channels, whatever the room publishes and whenever each of
  -- them reads, also in the middle of a publication: what each has received and what waits for it is
  -- a part of what was published, in the same order, and ends with the newest snapshot.
  pub beats-Newest :
      (ids : List ℕ) (bs : List (Beat A))
      → All (KeepsUp (publications bs)) (beats bs (map new_feed ids))
  beats-Newest ids bs = beats-KeepsUp bs [] (map new_feed ids) (begun ids)
    where
      begun : (ids : List ℕ) → All (KeepsUp []) (map new_feed ids)
      begun [] = tt
      begun (i ∷ is) = ((slnil, refl), begun is)
