-- ===== src/Examples/Peers.antt =====
-- Peers: what they are spawned with.
use vitis.Prelude.{
  true, false, List, [], ◌∷◌, Option, none, ◌≡◌, refl, if◌then◌else◌, pos, ℕ, arith,
}
use vitis.Text.{Text, codes, equal, has_prefix}
use vitis.Model.Conversation.{PeerSpec, Envelope}
use vitis.Model.Run.{EnvVars, SpawnSpec}
use vitis.Adapters.{codex_command}
use vitis.Peer.Spawner.{build_peer_env, spec_to_spawn}
use vitis.Peer.Persistent.{output}
use vitis.Peer.Transport.{Transport, Exchange, new, start, deliver}
use vitis.Peer.Delivering.{Returned, deliver-Returned}
use vitis.Peer.Scripted
use vitis.Peer.Scripted.{deliver_each}
use vitis.Peer.Script.{IsRead, deliver_each-IsRead}
use vitis.Peer.Spawned.{Confines, spec_to_spawn-Confines}

abbrev shell_vars : Text → Text
shell_vars name = if equal name (codes "VITIS_CODEX_BINARY") then codes "x; rm" else []

abbrev untested : Text → Option (List (Text × Text) → Text → EnvVars → Text → SpawnSpec)
untested id = none

abbrev peer_options : List (Text × Text)
peer_options =
    (codes "env_LD_PRELOAD", codes "evil.so")
    ∷ (codes "env_OPENAI_API_KEY", codes "k")
    ∷ (codes "model", codes "m1")
    ∷ []

abbrev codex_peer : PeerSpec
codex_peer = record { uri = codes "provider:codex"; options = peer_options }

preload_dropped :
    build_peer_env peer_options
    ≡ (codes "OPENAI_API_KEY", codes "k") ∷ (codes "VITIS_MODEL", codes "m1") ∷ []
unfolding build_peer_env has_prefix
preload_dropped = refl

unsafe_ignored : (codex_command shell_vars []).0 ≡ codes "codex"
unfolding codex_command
unsafe_ignored = refl

spec_to_spawn-Confines_example :
    Confines shell_vars codex_peer (spec_to_spawn shell_vars (codes "/w") untested codex_peer)
spec_to_spawn-Confines_example =
    spec_to_spawn-Confines shell_vars (codes "/w") untested (λ id. refl) codex_peer

abbrev letter : Envelope
letter = record {
  conversation_id = codes "c1";
  turn_index = 2;
  max_turns = 4;
  from = codes "a";
  from_id = [];
  to_id = [];
  body = codes "hello";
  marker_token = codes "MARK";
  include_briefing = false;
  briefing = [];
}

abbrev terminal : Transport
terminal = (start none (codes "c1") (codes "b") (new (pos 0))).0

abbrev talk : Exchange
talk = record {
  write_err = none;
  wakes = record { events = output (codes "fine\nMARK\n") ∷ []; ctx_err = none; late = false } ∷ [];
  started_at = 1;
  ended_at = 2;
}

deliver-Returned_example : Returned terminal letter talk (deliver letter talk terminal)
deliver-Returned_example = deliver-Returned letter talk terminal

abbrev actor : Scripted.Scripted
actor =
    record (Scripted.new (record {
      responses = codes "one" ∷ codes "two" ∷ codes "three" ∷ [];
      err = none;
      start_err = none;
    })) { started = true }

abbrev patient : Scripted.Waiting
patient = record { ctx_err = none; end_err = codes "cancelled" }

abbrev calls : List (Scripted.Waiting × Envelope × ℕ)
calls = (patient, letter, 5) ∷ (patient, letter, 6) ∷ []

deliver_each-IsRead_example : IsRead calls actor (deliver_each calls actor)
unfolding Scripted.new
deliver_each-IsRead_example =
    deliver_each-IsRead calls actor (record { begun = refl; unstopped = refl; faultless = refl })
      (refl, (refl, tt)) (omega arith)
