-- ===== src/MultiClient/Sessions/Sender.antt =====
-- multiclient.go: the function by which a session of `newSession` sends, with the clients of the
-- multiclient under the ids that the session knows.

use nkn_sdk_go.Base.{
  ℕ, ◌≡◌, refl, sym, ap, ◌∙◌, Bool, true, false, List, [], ◌∷◌, Option, none, some, Bool-cases, inl,
  inr, if◌then◌else◌, arith,
}
use nkn_sdk_go.Base.Int.{ℤ, pos, negsuc, pos_part}
use nkn_sdk_go.Base.Bytes.{Bytes, bytes_eq, bytes_eq_iff}
use nkn_sdk_go.Errors.{panic}
use nkn_sdk_go.Action.{Action}
use nkn_sdk_go.Identifier.{add_identifier, add_identifier_prefix, tag}
use nkn_sdk_go.Identifier.RoundTrip.{tag-injective}
use nkn_sdk_go.Message.{Nacl, Codec, Payload, session}
use nkn_sdk_go.Client.State.{Client, Net}
use nkn_sdk_go.Client.Outbound.{Signing}
use nkn_sdk_go.Client.Batch.{send_timeout}
use nkn_sdk_go.MultiClient.Policy.{Clients}
use nkn_sdk_go.MultiClient.Sending.Unique.{same_id_refl, same_id_eq}
use nkn_sdk_go.MultiClient.Sending.{MultiClient, same_id, get_client, set_client}

-- `clients[localClientID]`, with the number of the client; a missing client is nil too.
abbrev pub client_of_id : {W : Type 0} → Bytes → Clients W → ℤ × Option (Client W)
client_of_id id [] = (pos 0, none)
client_of_id id ((i, c) ∷ cs) =
    let rest = client_of_id id cs in if bytes_eq (add_identifier [] i) id then (i, c) else rest

abbrev pub session_payload : Bytes → Bytes → Payload
session_payload session_id buf = record {
  type = session;
  message_id = session_id;
  content = buf;
  reply_to_id = [];
  no_reply = false;
}

module _ {W : Type 0} (nacl : Nacl W) (codec : Codec) (secret : Bytes) (signing : Signing W)
    (net : Net W) (process_dests : List Bytes → Action W (List Bytes)) where
  -- `client.sendTimeout(...)`; a client that is nil makes it panic.
  abbrev pub send_by_client :
      ℤ × Option (Client W) → List Bytes → Payload → Action (MultiClient W) (Unit {0})
  send_by_client (i, none) dests payload m = (panic, m)
  send_by_client (i, some c) dests payload m =
      let (o, c') =
        send_timeout nacl codec secret signing net process_dests dests payload true (pos 0) c in
      (o, record m { clients = set_client i c' m.clients })

  -- The function that `newSession` gives the session, less the time limit of the write.
  pub send_segment : Bytes → Bytes → Bytes → Bytes → Bytes → Action (MultiClient W) (Unit {0})
  send_segment remote_addr session_id local remote buf m =
      send_by_client (client_of_id local m.clients) (add_identifier_prefix remote_addr remote ∷ [])
        (session_payload session_id buf) m

-- Client ids are equal just if the numbers are.
same_id-bytes_eq :
    (i : ℤ) (j : ℕ) → bytes_eq (add_identifier [] i) (add_identifier [] (pos j)) ≡ same_id i (pos j)
unfolding add_identifier
same_id-bytes_eq (negsuc k) j = ground arith
same_id-bytes_eq (pos n) j = elim (Bool-cases (same_id (pos n) (pos j))) [
  | inl e ↦
      (bytes_eq_iff (tag n) (tag j)).1 (ap (λ k. tag (pos_part k)) (same_id_eq (pos n) (pos j) e))
      ∙ sym e
  | inr e ↦ elim (Bool-cases (bytes_eq (tag n) (tag j))) [
    | inl q ↦
        let same : n ≡ j = tag-injective n j ((bytes_eq_iff (tag n) (tag j)).0 q) in
        cc (ap (λ k. same_id (pos k) (pos j)) same, same_id_refl (pos j), e)
    | inr q ↦ q ∙ sym e
  ]
]

-- The client that a session finds by its id is the one of that number.
client_of_id-get_client :
    {W : Type 0} (j : ℕ) (c : Client W) (cs : Clients W)
    → get_client (pos j) cs ≡ some c
    → client_of_id (add_identifier [] (pos j)) cs ≡ (pos j, some c)
client_of_id-get_client j c [] h = cc
client_of_id-get_client {W = W} j c ((i, d) ∷ cs) h =
    let id = add_identifier [] (pos j) in
    let same = same_id-bytes_eq i j in
    let pick : Bool → ℤ × Option (Client W) = λ b. if b then (i, d) else client_of_id id cs in
    let got : Bool → Option (Client W) = λ b. if b then d else get_client (pos j) cs in
    elim (Bool-cases (same_id i (pos j))) [
      | inl e ↦ ap pick (same ∙ e) ∙ (λ k. (same_id_eq i (pos j) e k, (sym (ap got e) ∙ h) k))
      | inr e ↦ ap pick (same ∙ e) ∙ client_of_id-get_client j c cs (sym (ap got e) ∙ h)
    ]

-- The address of a session's segment is that of the remote client of the number.
segment_dest :
    (remote : Bytes) (k : ℕ)
    → add_identifier_prefix remote (add_identifier [] (pos k)) ≡ add_identifier remote (pos k)
unfolding add_identifier
segment_dest remote k = refl

module _ {W : Type 0} (nacl : Nacl W) (codec : Codec) (secret : Bytes) (signing : Signing W)
    (net : Net W) (process_dests : List Bytes → Action W (List Bytes)) where
  -- What a session sends from its client `j` to the remote client `k` is sent, encrypted, by the client
  -- of number `j` to the address that the remote multiclient's client of number `k` has.
  pub send_segment_lem :
      (remote session_id buf : Bytes) (j k : ℕ) (c : Client W) (m : MultiClient W)
      → get_client (pos j) m.clients ≡ some c
      → send_segment nacl codec secret signing net process_dests remote session_id
          (add_identifier [] (pos j))
          (add_identifier [] (pos k))
          buf
          m
        ≡ send_by_client nacl codec secret signing net process_dests
            (pos j, some c)
            (add_identifier remote (pos k) ∷ [])
            (session_payload session_id buf)
            m
  unfolding send_segment
  send_segment_lem remote session_id buf j k c m h i =
      send_by_client nacl codec secret signing net process_dests
        (client_of_id-get_client j c m.clients h i) (segment_dest remote k i ∷ [])
        (session_payload session_id buf) m
