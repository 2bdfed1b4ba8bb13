-- ===== src/Client/Destination.antt =====
-- client.go: `processDest` and `processDests`: a destination whose last part is too short for a
-- public key is a registered name, which a node is asked for.
use nkn_sdk_go.Base.{
  ℕ, ◌≡◌, refl, false, List, [], ◌∷◌, ◌++◌, length, ltb, ◌==◌, if◌then◌else◌, arith, ◌≢◌,
  Bool-cases, inl, inr, ==_iff, ◌≤◌,
}
use nkn_sdk_go.Base.Bytes.{Bytes}
use nkn_sdk_go.Errors.{ok, err, panic, no_destination, invalid_pubkey_or_name, invalid_destination}
use nkn_sdk_go.Action.{Action, pure, raise, ◌>>=◌}
use nkn_sdk_go.Message.{is_nil}
use nkn_sdk_go.Identifier.{dot}

-- `strings.Split(dest, ".")`: the first part, and the others.
unfoldable pub split_dots : Bytes → Bytes × List Bytes
split_dots [] = ([], [])
split_dots (c ∷ cs) =
    let (first, others) = split_dots cs in
    if c == dot then ([], first ∷ others) else (c ∷ first, others)

-- `strings.Join(addr, ".")`
pub join_dots : Bytes → List Bytes → Bytes
join_dots first [] = first
join_dots first (next ∷ others) = first ++ dot ∷ join_dots next others

-- `addr[len(addr)-1]`
abbrev pub last_part : Bytes → List Bytes → Bytes
last_part first [] = first
last_part first (next ∷ others) = last_part next others

-- `addr[len(addr)-1] = x`
abbrev pub with_last : Bytes → List Bytes → Bytes → Bytes × List Bytes
with_last first [] x = (x, [])
with_last first (next ∷ others) x =
    (first, (with_last next others x).0 ∷ (with_last next others x).1)

module _ {W : Type 0} (get_registrant : Bytes → Action W Bytes) where
  -- `processDest`; `get_registrant` stands for `GetRegistrantContext`, less the expiry.
  pub process_dest : Bytes → Action W Bytes
  process_dest [] = raise no_destination
  process_dest (d ∷ dest) =
      let (first, others) = split_dots (d ∷ dest) in
      if ltb (length (last_part first others)) 64
      then (do
        registrant ← get_registrant (last_part first others)
        if is_nil registrant
            then raise invalid_pubkey_or_name
            else (let (f, os) = with_last first others registrant in pure (join_dots f os)))
      else pure (join_dots first others)

  -- The loop of `processDests`: what fails is logged and left out.
  pub process_each : List Bytes → Action W (List Bytes)
  process_each [] w = (ok [], w)
  process_each (dest ∷ dests) w =
      let (o, w') = process_dest dest w in
      elim o [
        | ok d ↦ (do ds ← process_each dests; pure (d ∷ ds)) w'
        | err e ↦ process_each dests w'
        | panic ↦ (panic, w')
      ]

  -- `processDests`.
  pub process_dests : List Bytes → Action W (List Bytes)
  unfolding process_each
  process_dests [] = pure []
  process_dests (d ∷ dests) = do
    ds ← process_each (d ∷ dests)
    (elim ds [ [] ↦ raise invalid_destination | x ∷ xs ↦ pure (x ∷ xs) ])

join_dots-cons : (c : ℕ) (f : Bytes) (os : List Bytes) → join_dots (c ∷ f) os ≡ c ∷ join_dots f os
unfolding join_dots
join_dots-cons c f [] = refl
join_dots-cons c f (o ∷ os) = refl

join_dots-split_dots : (cs : Bytes) → join_dots (split_dots cs).0 (split_dots cs).1 ≡ cs
unfolding split_dots join_dots
join_dots-split_dots [] = refl
join_dots-split_dots (c ∷ cs) = elim (Bool-cases (c == dot)) [
  | inl e ↦ rw e (rw (join_dots-split_dots cs, (==_iff c dot).0 e))
  | inr e ↦
      rw e
        (rw (join_dots-cons c (split_dots cs).0 (split_dots cs).1) (rw (join_dots-split_dots cs)))
]

-- A destination that already ends in a public key is sent to as it stands, and nobody is asked.
pub process_dest_pubkey :
    {W : Type 0} (get_registrant : Bytes → Action W Bytes) (dest : Bytes) (w : W)
    → dest ≢ []
    → 64 ≤ length (last_part (split_dots dest).0 (split_dots dest).1)
    → process_dest get_registrant dest w ≡ (ok dest, w)
unfolding process_dest
process_dest_pubkey get_registrant [] w ne long = absurd (ne refl)
process_dest_pubkey get_registrant (d ∷ dest) w ne long =
    let not_short : ltb (length (last_part (split_dots (d ∷ dest)).0 (split_dots (d ∷ dest)).1)) 64
        ≡ false =
      ground arith in
    rw not_short (rw (join_dots-split_dots (d ∷ dest)))
