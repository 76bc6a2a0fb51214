-- ===== src/Load/Observer.antt =====
-- The search for a text in the output of a session, packet by packet. Only the end of the output is
-- kept.
use mathlib.Core.List.{append_assoc, append-nil}
use bomber_cli.Base.{
  ℕ, suc, zero, ◌+◌, ◌-◌, ◌<◌, ◌≤◌, ltb, ◌≡◌, ◌⊎◌, refl, sym, ap, subst, ◌∙◌, inl, inr, arith, Bool,
  true, false, not, ◌||◌, ◌&&◌, if◌then◌else◌, List, [], ◌∷◌, ◌++◌, length, take, drop,
  length-append, length-drop, Text, Bool-cases, ◌==◌,
}
use bomber_cli.Host.Input.{begins}
use bomber_cli.Host.Requests.{is_empty}

-- `ready` says whether the channel has been sent the time.
pub record Observer : Type 0 where
  pub tail : Text
  pub needle : Text
  pub ready : Bool
  pub bytes : ℕ

-- strings.Contains
abbrev pub contains : Text → Text → Bool
contains [] n = is_empty n
contains (c ∷ s) n = begins n (c ∷ s) || contains s n

-- The end of the output that is kept.
abbrev pub kept_tail : Text → Text
kept_tail t = if ltb 16384 (length t) then drop (length t - 8192) t else t

unfoldable pub write : Text → Observer → Observer
write p o =
    let t = o.tail ++ p in
    let found = not (is_empty o.needle) && contains t o.needle in
    record o {
      bytes = o.bytes + length p;
      tail = kept_tail t;
      needle = if found then [] else o.needle;
      ready = o.ready || found;
    }

abbrev pub arm : Text → Observer → Observer
arm n o = record o { tail = []; needle = n; ready = false }

abbrev pub writes : List Text → Observer → Observer
writes [] o = o
writes (p ∷ ps) o = writes ps (write p o)

-- The whole output.
abbrev pub stream : List Text → Text
stream [] = []
stream (p ∷ ps) = p ++ stream ps

begins-append : (n s p : Text) → length n ≤ length s → begins n (s ++ p) ≡ begins n s
begins-append [] s p h = refl
begins-append (c ∷ n) [] p h = absurd (omega (arith, h))
begins-append (c ∷ n) (d ∷ s) p h = ap (λ b. (d == c) && b) (begins-append n s p (omega (arith, h)))

or_false : (b c : Bool) → (b || c) ≡ false → (b ≡ false) × (c ≡ false)
or_false true c e = cc
or_false false c e = (refl, e)

-- A text that is not in the output so far is found in the part that is kept with the next packet,
-- exactly if it is in the output with the next packet.
contains-kept :
    (a t p n : Text)
    → length n ≤ length t
    → contains (a ++ t) n ≡ false
    → contains (a ++ t ++ p) n ≡ contains (t ++ p) n
contains-kept [] t p n h e = refl
contains-kept (c ∷ a) t p n h e =
    let (here, later) = or_false (begins n (c ∷ (a ++ t))) (contains (a ++ t) n) e in
    let not_here : begins n (c ∷ (a ++ t) ++ p) ≡ false =
      begins-append n (c ∷ (a ++ t)) p (omega (arith, h, length-append a t)) ∙ here in
    rw not_here (contains-kept a t p n h later)

take-drop : (k : ℕ) (xs : Text) → take k xs ++ drop k xs ≡ xs
take-drop zero xs = refl
take-drop (suc k) [] = refl
take-drop (suc k) (x ∷ xs) = ap (◌∷◌ x) (take-drop k xs)

contains-append : (s p n : Text) → contains s n ≡ true → contains (s ++ p) n ≡ true
contains-append [] p [] e = anywhere p
  where
    anywhere : (p : Text) → contains p [] ≡ true
    anywhere [] = refl
    anywhere (c ∷ p) = refl
contains-append [] p (c ∷ n) e = cc
contains-append (d ∷ s) p n e = elim (Bool-cases (begins n (d ∷ s))) [
  | inl f ↦ let there = begins_longer n (d ∷ s) p f in rw there refl
  | inr f ↦
      let later = contains-append s p n (rw f at e) in rw later (or_true (begins n (d ∷ (s ++ p))))
]
  where
    or_true : (b : Bool) → (b || true) ≡ true
    or_true true = refl
    or_true false = refl

    begins_longer : (n s p : Text) → begins n s ≡ true → begins n (s ++ p) ≡ true
    begins_longer [] s p e = refl
    begins_longer (c ∷ n) [] p e = cc
    begins_longer (c ∷ n) (d ∷ s) p e = elim (Bool-cases (d == c)) [
      | inl f ↦ rw f (begins_longer n s p (rw f at e))
      | inr f ↦ let wrong : false ≡ true = rw f at e in cc
    ]

not_empty : (n : Text) → 0 < length n → is_empty n ≡ false
not_empty [] h = absurd (omega (arith, h))
not_empty (c ∷ n) h = refl

-- What an observer knows that looks for a text, after some output.
pub data Watches (n s : Text) (o : Observer) : Type 0 where
  searches :
      (a : Text)
      → o.needle ≡ n
      → o.ready ≡ false
      → contains s n ≡ false
      → a ++ o.tail ≡ s
      → (a ≡ []) ⊎ (8192 ≤ length o.tail)
      → Watches n s o
  has_found : o.needle ≡ [] → o.ready ≡ true → contains s n ≡ true → Watches n s o

module _ (n : Text) (some_text : 0 < length n) (short : length n ≤ 8192) where
  -- The kept part with the next packet tells whether the text is there.
  contains-tail :
      (a t p : Text)
      → (a ≡ []) ⊎ (8192 ≤ length t)
      → contains (a ++ t) n ≡ false
      → contains ((a ++ t) ++ p) n ≡ contains (t ++ p) n
  contains-tail a t p (inl e) h = rw e refl
  contains-tail a t p (inr long) h = contains-kept a t p n (omega (arith, short, long)) h

  kept_tail_parts :
      (a t : Text)
      → (a ≡ []) ⊎ (8192 ≤ length t)
      → (b : Text) × (b ++ kept_tail t ≡ a ++ t) × ((b ≡ []) ⊎ (8192 ≤ length (kept_tail t)))
  kept_tail_parts a t h = elim (Bool-cases (ltb 16384 (length t))) [
    | inl e ↦
        let k = length t - 8192 in
        let left = length-drop k t in
        rw e (
          a ++ take k t,
          append_assoc a (take k t) (drop k t) ∙ ap (◌++◌ a) (take-drop k t),
          inr (ground (arith, e, left)),
        )
    | inr e ↦ rw e (a, refl, h)
  ]

  found_now :
      (p : Text) (o : Observer)
      → o.needle ≡ n
      → (not (is_empty o.needle) && contains (o.tail ++ p) o.needle) ≡ contains (o.tail ++ p) n
  found_now p o e = rw e rw (not_empty n some_text) refl

  write-Watches : (s p : Text) (o : Observer) → Watches n s o → Watches n (s ++ p) (write p o)
  unfolding write
  write-Watches s p o (has_found none_left found there) =
      has_found (rw none_left refl) (rw found refl) (contains-append s p n there)
  write-Watches s p o (searches a looking waiting absent whole long) =
      elim (Bool-cases (contains (o.tail ++ p) n)) [
        | inl e ↦
            has_found (rw (found_now p o looking) rw e refl)
              (rw (found_now p o looking) rw e rw waiting refl) (same ∙ e)
        | inr e ↦
            let (b, parts, enough) = kept_tail_parts a (o.tail ++ p) (longer long) in
            searches b (rw (found_now p o looking) rw e looking)
              (rw (found_now p o looking) rw e rw waiting refl) (same ∙ e)
              (parts ∙ sym (append_assoc a o.tail p) ∙ ap (λ x. x ++ p) whole) enough
      ]
    where
      same : contains (s ++ p) n ≡ contains (o.tail ++ p) n
      same =
          ap (λ x. contains (x ++ p) n) (sym whole)
          ∙ contains-tail a o.tail p long (ap (λ x. contains x n) whole ∙ absent)

      longer : (a ≡ []) ⊎ (8192 ≤ length o.tail) → (a ≡ []) ⊎ (8192 ≤ length (o.tail ++ p))
      longer (inl e) = inl e
      longer (inr h) = inr (omega (arith, h, length-append o.tail p))

  writes-Watches :
      (ps : List Text) (s : Text) (o : Observer)
      → Watches n s o
      → Watches n (s ++ stream ps) (writes ps o)
  writes-Watches [] s o w = subst (λ x. Watches n x o) (sym (append-nil s)) w
  writes-Watches (p ∷ ps) s o w =
      subst (λ x. Watches n x (writes ps (write p o))) (append_assoc s p (stream ps))
        (writes-Watches ps (s ++ p) (write p o) (write-Watches s p o w))

  -- A text of 1 to 8192 characters that an observer is armed with is announced exactly if it stands
  -- somewhere in the output since then, however the output is cut into packets, although only the end
  -- of the output is kept.
  pub writes-contains :
      (ps : List Text) (o : Observer) → (writes ps (arm n o)).ready ≡ contains (stream ps) n
  writes-contains ps o = told (writes-Watches ps [] (arm n o) begun)
    where
      begun : Watches n [] (arm n o)
      begun = searches [] refl refl (not_empty n some_text) refl (inl refl)

      told :
          Watches n (stream ps) (writes ps (arm n o))
          → (writes ps (arm n o)).ready ≡ contains (stream ps) n
      told (searches a looking waiting absent whole long) = waiting ∙ sym absent
      told (has_found none_left found there) = found ∙ sym there

-- The part of the output that is kept is bounded.
pub write-bounded : (p : Text) (o : Observer) → length (write p o).tail ≤ 16384
unfolding write
write-bounded p o = elim (Bool-cases (ltb 16384 (length (o.tail ++ p)))) [
  | inl e ↦ rw e (omega (arith, length-drop (length (o.tail ++ p) - 8192) (o.tail ++ p)))
  | inr e ↦ rw e (ground (arith, e))
]
