-- ===== src/WebSocket/Client/Messages.antt =====
-- A message that the server sends in fragments is returned whole.
use deskaone_sdk.Shared.{ℕ, zero, suc, ◌≤◌, ◌<◌, ◌≡◌, refl, ap, ap₂, ◌∙◌, arith}
use deskaone_sdk.Shared.{Bool, true, false, ◌⊎◌, inr, List, [], ◌∷◌, ◌++◌, length, if◌then◌else◌}
use deskaone_sdk.Shared.{length-append, append_assoc}
use deskaone_sdk.Shared.Int.{pos, ◌≤ℤ◌}
use deskaone_sdk.Wire.{Conn}
use deskaone_sdk.WebSocket.Frame.{int64_max}
use deskaone_sdk.WebSocket.Frame.Lengths.{Within}
use deskaone_sdk.WebSocket.Frame.Server.{server_frame, unmasked, read_frame-server_frame}
use deskaone_sdk.WebSocket.Client.{
  WebSocketClient, Outcome, message, failed, client_closed, Fragments, on_conn,
}
use deskaone_sdk.WebSocket.Client.Ends.{read_deadline_input}
use deskaone_sdk.WebSocket.Client.{read_deadline, handle_frame, handle_result, continue_message}
use deskaone_sdk.WebSocket.Client.{read_loop, read_message, no_fragments}

-- The frames of a message behind its first one: continuations, the last of them final.
unfoldable pub continuations : List (List ℕ) → List ℕ → List ℕ
continuations [] last = server_frame true 0 last
continuations (p ∷ ps) last = server_frame false 0 p ++ continuations ps last

abbrev pub joined : List (List ℕ) → List ℕ → List ℕ
joined [] last = last
joined (p ∷ ps) last = p ++ joined ps last

-- What a round leaves of a client: nothing has changed but the connection's input and deadline.
abbrev pub behind : List ℕ → WebSocketClient → WebSocketClient
behind rest c =
    on_conn
      (λ old.
        read_deadline c.has_read_timeout false
          (record (read_deadline c.has_read_timeout true old) { input = rest }))
      c

pub read_deadline_closed :
    (has armed : Bool) (d : Conn) → (read_deadline has armed d).is_closed ≡ d.is_closed
read_deadline_closed true armed d = refl
read_deadline_closed false armed d = refl

pub behind_input : (rest : List ℕ) (c : WebSocketClient) → (behind rest c).tcp.conn.input ≡ rest
behind_input rest c = read_deadline_input c.has_read_timeout false _

pub behind_closed :
    (rest : List ℕ) (c : WebSocketClient)
    → c.tcp.conn.is_closed ≡ false
    → (behind rest c).tcp.conn.is_closed ≡ false
behind_closed rest c open' =
    read_deadline_closed c.has_read_timeout false _
    ∙ read_deadline_closed c.has_read_timeout true c.tcp.conn
    ∙ open'

-- One round on a frame that is complete in the input.
pub round :
    (fuel : ℕ) (frags : Fragments) (c : WebSocketClient) (fin : Bool) (opcode : ℕ)
    (payload rest : List ℕ)
    → opcode < 16
    → Within c.max_payload_size (length payload)
    → c.tcp.conn.is_closed ≡ false
    → c.tcp.conn.input ≡ server_frame fin opcode payload ++ rest
    → read_loop (suc fuel) frags c
      ≡ handle_frame (read_loop fuel) frags (unmasked fin opcode payload) (behind rest c)
unfolding read_loop
round fuel frags c fin opcode payload rest ho fits open' e =
    ap (handle_result (read_loop fuel) frags c) (
      read_frame-server_frame c.max_payload_size fin opcode payload rest
        (read_deadline c.has_read_timeout true c.tcp.conn) ho fits
        (read_deadline_closed c.has_read_timeout true c.tcp.conn ∙ open')
        (read_deadline_input c.has_read_timeout true c.tcp.conn ∙ e))

pub read_deadline_at_end :
    (has armed : Bool) (d : Conn) → (read_deadline has armed d).at_end ≡ d.at_end
read_deadline_at_end true armed d = refl
read_deadline_at_end false armed d = refl

pub behind_at_end :
    (rest : List ℕ) (c : WebSocketClient) → (behind rest c).tcp.conn.at_end ≡ c.tcp.conn.at_end
behind_at_end rest c =
    read_deadline_at_end c.has_read_timeout false _
    ∙ read_deadline_at_end c.has_read_timeout true c.tcp.conn

behind_conn :
    (has : Bool) (later rest : List ℕ) (d : Conn)
    → read_deadline has false
        (record (read_deadline has true
          (read_deadline has false (record (read_deadline has true d) { input = later }))) {
            input = rest;
          })
      ≡ read_deadline has false (record (read_deadline has true d) { input = rest })
behind_conn true later rest d = refl
behind_conn false later rest d = refl

behind_behind :
    (later rest : List ℕ) (c : WebSocketClient) → behind rest (behind later c) ≡ behind rest c
behind_behind later rest c =
    ap (λ d. on_conn (λ old. d) c) (behind_conn c.has_read_timeout later rest c.tcp.conn)

module _ (next : Fragments → WebSocketClient → Outcome × WebSocketClient) (payload : List ℕ)
    (c : WebSocketClient) where
  handle_last :
      (frags : Fragments)
      → 0 < frags.opcode
      → pos (length (frags.payload ++ payload)) ≤ℤ c.max_payload_size
      → handle_frame next frags (unmasked true 0 payload) c
        ≡ (message frags.opcode (frags.payload ++ payload), c)
  unfolding handle_frame continue_message
  handle_last frags h fits = ground arith

  handle_more :
      (frags : Fragments)
      → 0 < frags.opcode
      → pos (length (frags.payload ++ payload)) ≤ℤ c.max_payload_size
      → handle_frame next frags (unmasked false 0 payload) c
        ≡ next (record frags { payload = frags.payload ++ payload }) c
  unfolding handle_frame continue_message
  handle_more frags h fits = ground arith

  handle_first :
      (opcode : ℕ)
      → (opcode ≡ 1) ⊎ (opcode ≡ 2)
      → pos (length payload) ≤ℤ c.max_payload_size
      → handle_frame next no_fragments (unmasked false opcode payload) c
        ≡ next (record { opcode = opcode; payload = payload }) c
  unfolding handle_frame
  handle_first opcode h fits = ground arith

-- The bytes of a message fit the client's limit and an int64.
abbrev pub Fits : WebSocketClient → List ℕ → Type 0
Fits c bytes = (length bytes ≤ int64_max) × (pos (length bytes) ≤ℤ c.max_payload_size)

rest_of_message :
    (ps : List (List ℕ)) (last : List ℕ) (fuel opcode : ℕ) (acc rest : List ℕ) (c : WebSocketClient)
    → 0 < opcode
    → Fits c (acc ++ joined ps last)
    → c.tcp.conn.is_closed ≡ false
    → c.tcp.conn.input ≡ continuations ps last ++ rest
    → length ps < fuel
    → read_loop fuel (record { opcode = opcode; payload = acc }) c
      ≡ (message opcode (acc ++ joined ps last), behind rest c)
unfolding continuations
rest_of_message ps last zero opcode acc rest c h fits open' e enough = absurd (omega arith)
rest_of_message [] last (suc fuel) opcode acc rest c h fits open' e enough =
    let size = length-append acc last in
    round fuel (record { opcode = opcode; payload = acc }) c true 0 last rest (omega arith)
      (omega (arith, size), inr (omega (arith, size))) open' e
    ∙ handle_last (read_loop fuel) last (behind rest c) (record { opcode = opcode; payload = acc })
        h fits.1
rest_of_message (p ∷ ps) last (suc fuel) opcode acc rest c h fits open' e enough =
    let later = continuations ps last ++ rest in
    let size = length-append acc (p ++ joined ps last) in
    let size' = length-append p (joined ps last) in
    let size'' = length-append acc p in
    let frags : Fragments = record { opcode = opcode; payload = acc } in
    let step =
      round fuel frags c false 0 p later (omega arith)
        (omega (arith, size, size'), inr (omega (arith, size, size'))) open'
        (e ∙ append_assoc (server_frame false 0 p) (continuations ps last) rest)
      ∙ handle_more (read_loop fuel) p (behind later c) frags h
          (omega (arith, size, size', size'')) in
    let same = append_assoc acc p (joined ps last) in
    let ih =
      rest_of_message ps last fuel opcode (acc ++ p) rest (behind later c) h (rw same fits)
        (behind_closed later c open') (behind_input later c) (omega arith) in
    step ∙ ih ∙ ap₂ (λ bytes d. (message opcode bytes, d)) same (behind_behind later rest c)

length-continuations :
    (ps : List (List ℕ)) (last : List ℕ) → length ps < length (continuations ps last)
unfolding continuations
length-continuations [] last = omega arith
length-continuations (p ∷ ps) last = omega (
  arith,
  length-append (server_frame false 0 p) (continuations ps last),
  length-continuations ps last,
)

pub open_client :
    (c : WebSocketClient)
    → c.is_closed ≡ false
    → read_message c ≡ read_loop (suc (length c.tcp.conn.input)) no_fragments c
unfolding read_message
open_client c up =
    ap
      (λ b.
        if b
        then (failed client_closed, c)
        else read_loop (suc (length c.tcp.conn.input)) no_fragments c)
      up

-- A text or binary message that the server sends in a first frame, any number of continuations and a
-- final one is returned whole, with the opcode of the first frame; and exactly its frames are taken
-- from the input. The client and its connection are open, and the message fits the client's limit and
-- an int64.
pub read_message-fragments :
    (opcode : ℕ) (first last rest : List ℕ) (ps : List (List ℕ)) (c : WebSocketClient)
    → (opcode ≡ 1) ⊎ (opcode ≡ 2)
    → Fits c (first ++ joined ps last)
    → c.is_closed ≡ false
    → c.tcp.conn.is_closed ≡ false
    → c.tcp.conn.input ≡ server_frame false opcode first ++ (continuations ps last ++ rest)
    → read_message c ≡ (message opcode (first ++ joined ps last), behind rest c)
read_message-fragments opcode first last rest ps c kind fits up open' e =
    let later = continuations ps last ++ rest in
    let size = length-append first (joined ps last) in
    let total = ap (λ (k : List ℕ). length k) e in
    let small : opcode < 16 = ground arith in
    let some' : 0 < opcode = ground arith in
    let fuel = length c.tcp.conn.input in
    let step =
      open_client c up
      ∙ round fuel no_fragments c false opcode first later small
          (omega (arith, size), inr (omega (arith, size))) open' e
      ∙ handle_first (read_loop fuel) first (behind later c) opcode kind (omega (arith, size)) in
    let whole =
      rest_of_message ps last fuel opcode first rest (behind later c) some' fits
        (behind_closed later c open') (behind_input later c)
        (omega (
          arith,
          total,
          length-append (server_frame false opcode first) later,
          length-append (continuations ps last) rest,
          length-continuations ps last,
        )) in
    step
    ∙ whole
    ∙ ap (λ d. (message opcode (first ++ joined ps last), d)) (behind_behind later rest c)
