-- ===== src/Startup/CliMain/Replies.antt =====
-- The loop of src/cli_main.cpp over a connection that delivers replies.
use mathlib.Core.List.{append-nil, append_assoc}
use tiny_kv_distributed_stor.Prelude.{
  ◌⊎◌, ◌-◌, ◌≤◌, ◌≡◌, refl, sym, ap, ◌∙◌, true, Option, none, some, List, [], ◌∷◌, ◌++◌, map, All,
  arith, leb, length, length-append, inl, inr,
}
use mathlib.Core.Path.{subst}
use tiny_kv_distributed_stor.Prelude.Text.{Text}
use tiny_kv_distributed_stor.Recovery.Lines.{IsLine, unlines}
use tiny_kv_distributed_stor.Net.LineProtocol.{max_line, read_line, strip_cr, write_line}
use tiny_kv_distributed_stor.Net.LineProtocol.Chunks.{joined, read_line-line}
use tiny_kv_distributed_stor.Net.TcpClient.{
  Socket, TcpClient, write_raw, send_line, send_on, receive_line, receive_on,
}
use tiny_kv_distributed_stor.Startup.CliMain.{
  Input, input_of, Ending, Session, ended, print_first, repl,
}

abbrev sends : Text → List Text → Input → List Text
sends input later Input.quit = []
sends input later Input.blank = later
sends input later Input.command = input ∷ later

-- The lines of the input that are sent are those before a `quit` or `exit`, less the empty ones.
abbrev pub commands : List Text → List Text
commands [] = []
commands (input ∷ inputs) = sends input (commands inputs) (input_of input)

abbrev pub over : Socket → Text → TcpClient
over s buffer = record { fd = some s; buffer = buffer }

abbrev pub sent_on : Option Socket → Text
sent_on none = []
sent_on (some s) = s.sent

-- The socket once a line is sent on it and a reply was taken from it.
abbrev after : Text → List Text → Socket → Socket
after line chunks s = record {
  incoming = chunks;
  sent = s.sent ++ (line ++ 10 ∷ []);
  room = s.room - length (line ++ 10 ∷ []);
}

send_line-over :
    (line : Text) (s : Socket) (buffer : Text)
    → length (line ++ 10 ∷ []) ≤ s.room
    → send_line line (over s buffer) ≡ (true, over (after line s.incoming s) buffer)
unfolding send_line send_on write_raw write_line
send_line-over line s buffer h =
    let enough : leb (length (line ++ 10 ∷ [])) s.room ≡ true = ground arith in rw enough refl

receive_line-over :
    (s : Socket) (buffer reply : Text)
    → (read_line buffer s.incoming).0 ≡ some reply
    → receive_line (over s buffer) ≡ (
      some reply,
      over
          (record s { incoming = (read_line buffer s.incoming).2 })
          (read_line buffer s.incoming).1,
    )
unfolding receive_line receive_on
receive_line-over s buffer reply h = rw h refl

repl-command :
    (input : Text) (inputs : List Text) (c c1 c2 : TcpClient) (reply : Text)
    → input_of input ≡ Input.command
    → send_line input c ≡ (true, c1)
    → receive_line c1 ≡ (some reply, c2)
    → repl (input ∷ inputs) c ≡ print_first reply (repl inputs c2)
unfolding repl
repl-command input inputs c c1 c2 reply e sent received =
    let was_sent : (send_line input c).0 ≡ true = ap (λ p. p.0) sent in
    let then : receive_line (send_line input c).1 ≡ (some reply, c2) =
      ap (λ p. receive_line p.1) sent ∙ received in
    let came : (receive_line (send_line input c).1).0 ≡ some reply = ap (λ p. p.0) then in
    rw (e, was_sent, came, repl) (ap (λ p. print_first reply (repl inputs p.1)) then)

-- A session that printed these lines, after these bytes were sent.
abbrev Went : Session → List Text → Text → Type 0
Went s lines bytes = (s.printed ≡ lines) × (sent_on s.client.fd ≡ bytes)

-- What a connection delivers, and how much it takes.
record Delivers (cs replies : List Text) (rest : Text) (s : Socket) (buffer : Text) : Type 0 where
  one_each : length replies ≡ length cs
  are_lines : All IsLine replies
  fit : All (λ reply. length reply ≤ max_line) replies
  arrive : buffer ++ joined s.incoming ≡ unlines replies ++ rest
  takes : length (unlines cs) ≤ s.room

-- The session after a quit, an empty line or a command.
repl-quit :
    (input : Text) (inputs : List Text) (c : TcpClient)
    → input_of input ≡ Input.quit
    → repl (input ∷ inputs) c ≡ ended Ending.quit_typed c
unfolding repl
repl-quit input inputs c e = rw (e, repl) refl

repl-blank :
    (input : Text) (inputs : List Text) (c : TcpClient)
    → input_of input ≡ Input.blank
    → repl (input ∷ inputs) c ≡ repl inputs c
unfolding repl
repl-blank input inputs c e = rw (e, repl) refl

Input-cases : (i : Input) → (i ≡ Input.quit) ⊎ ((i ≡ Input.blank) ⊎ (i ≡ Input.command))
Input-cases Input.quit = inl refl
Input-cases Input.blank = inr (inl refl)
Input-cases Input.command = inr (inr refl)

-- A command's exchange leaves a connection that delivers the other replies.
exchange :
    (input : Text) (cs replies : List Text) (reply rest : Text) (s : Socket) (buffer : Text)
    → Delivers (input ∷ cs) (reply ∷ replies) rest s buffer
    → (send_line input (over s buffer) ≡ (true, over (after input s.incoming s) buffer))
      × (receive_line (over (after input s.incoming s) buffer) ≡ (
        some (strip_cr reply),
        over (after input (read_line buffer s.incoming).2 s) (read_line buffer s.incoming).1,
      ))
      × Delivers cs replies rest
          (after input (read_line buffer s.incoming).2 s)
          (read_line buffer s.incoming).1
exchange input cs replies reply rest s buffer d =
    let sum = length-append (input ++ 10 ∷ []) (unlines cs) in
    let takes = d.takes in
    let (line, left) =
      read_line-line reply (unlines replies ++ rest) buffer s.incoming d.are_lines.0 d.fit.0
        (d.arrive ∙ unfold write_line in append_assoc (reply ++ 10 ∷ []) (unlines replies) rest) in
    (
      send_line-over input s buffer (omega (arith, sum, takes)),
      receive_line-over (after input s.incoming s) buffer (strip_cr reply) line,
      record {
        one_each = omega (arith, d.one_each);
        are_lines = d.are_lines.1;
        fit = d.fit.1;
        arrive = left;
        takes = omega (arith, sum, takes);
      },
    )

module _ (rest : Text) where
  Prints : List Text → List Text → Type 0
  Prints inputs cs =
      (replies : List Text) (s : Socket) (buffer : Text)
      → Delivers cs replies rest s buffer
      → Went (repl inputs (over s buffer)) (map strip_cr replies) (s.sent ++ unlines cs)

  nothing_to_print :
      (ending : Ending) (replies : List Text) (s : Socket) (buffer : Text)
      → Delivers [] replies rest s buffer
      → Went (ended ending (over s buffer)) (map strip_cr replies) (s.sent ++ unlines [])
  nothing_to_print ending [] s buffer d = (refl, sym (append-nil s.sent))
  nothing_to_print ending (reply ∷ replies) s buffer d = absurd (omega (arith, d.one_each))

  Prints-quit :
      (input : Text) (inputs : List Text) → input_of input ≡ Input.quit → Prints (input ∷ inputs) []
  unfolding Prints
  Prints-quit input inputs e replies s buffer d =
      subst (λ x. Went x (map strip_cr replies) (s.sent ++ unlines []))
        (sym (repl-quit input inputs (over s buffer) e))
        (nothing_to_print Ending.quit_typed replies s buffer d)

  Prints-blank :
      (input : Text) (inputs : List Text)
      → input_of input ≡ Input.blank
      → Prints inputs (commands inputs)
      → Prints (input ∷ inputs) (commands inputs)
  unfolding Prints
  Prints-blank input inputs e later replies s buffer d =
      subst (λ x. Went x (map strip_cr replies) (s.sent ++ unlines (commands inputs)))
        (sym (repl-blank input inputs (over s buffer) e)) (later replies s buffer d)

  Prints-command :
      (input : Text) (inputs cs : List Text)
      → input_of input ≡ Input.command
      → Prints inputs cs
      → Prints (input ∷ inputs) (input ∷ cs)
  unfolding Prints
  Prints-command input inputs cs e later [] s buffer d = absurd (omega (arith, d.one_each))
  Prints-command input inputs cs e later (reply ∷ replies) s buffer d =
      let (sent, received, d1) = exchange input cs replies reply rest s buffer d in
      let s1 = after input (read_line buffer s.incoming).2 s in
      let (printed, bytes) = later replies s1 (read_line buffer s.incoming).1 d1 in
      let step =
        repl-command input inputs (over s buffer) (over (after input s.incoming s) buffer)
          (over s1 (read_line buffer s.incoming).1) (strip_cr reply) e sent received in
      (
        ap (λ x. x.printed) step ∙ ap (◌∷◌ (strip_cr reply)) printed,
        ap (λ x. sent_on x.client.fd) step
            ∙ (bytes ∙ append_assoc s.sent (input ++ 10 ∷ []) (unlines cs)),
      )

all_printed : (rest : Text) (inputs : List Text) → Prints rest inputs (commands inputs)
unfolding Prints repl
all_printed rest [] = nothing_to_print rest Ending.end_of_input
all_printed rest (input ∷ inputs) =
    let later = all_printed rest inputs in
    elim (Input-cases (input_of input)) [
      | inl e ↦
          subst (Prints rest (input ∷ inputs)) (sym (ap (sends input (commands inputs)) e))
            (Prints-quit rest input inputs e)
      | inr (inl e) ↦
          subst (Prints rest (input ∷ inputs)) (sym (ap (sends input (commands inputs)) e))
            (Prints-blank rest input inputs e later)
      | inr (inr e) ↦
          subst (Prints rest (input ∷ inputs)) (sym (ap (sends input (commands inputs)) e))
            (Prints-command rest input inputs (commands inputs) e later)
    ]

-- On an open connection that takes the commands, and that delivers a line of at most 8192 bytes for each of
-- them, in whatever chunks, the loop sends exactly the commands, each with its newline, and prints exactly
-- the replies, in order, each less a last carriage return. The commands are the lines of the input before
-- the first `quit` or `exit`, less the empty ones. The first reply begins with what the buffer held.
pub repl_prints :
    (inputs replies : List Text) (rest : Text) (s : Socket) (buffer : Text)
    → length replies ≡ length (commands inputs)
    → All IsLine replies
    → All (λ reply. length reply ≤ max_line) replies
    → buffer ++ joined s.incoming ≡ unlines replies ++ rest
    → length (unlines (commands inputs)) ≤ s.room
    → ((repl inputs (over s buffer)).printed ≡ map strip_cr replies)
      × (sent_on (repl inputs (over s buffer)).client.fd ≡ s.sent ++ unlines (commands inputs))
unfolding Prints
repl_prints inputs replies rest s buffer one_each are_lines fit arrive takes =
    all_printed rest inputs replies s buffer (record {
      one_each = one_each;
      are_lines = are_lines;
      fit = fit;
      arrive = arrive;
      takes = takes;
    })
