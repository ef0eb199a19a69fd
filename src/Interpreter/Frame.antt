-- ===== src/Interpreter/Frame.antt =====
-- What executable content leaves alone: the relation `Frame`, kept by every operation that a
-- block of actions or a session can make.
pub mod Send
pub mod Model
pub mod Execute
pub mod Select
pub mod Content
use statecharts.Base.{
  ℕ, Bool, true, false, List, [], ◌∷◌, ◌++◌, Option, ◌≡◌, refl, sym, ap, ◌∙◌, Extends, append-nil,
  append_assoc, if◌then◌else◌,
}
use statecharts.Base.Bytes.{Bytes}
use statecharts.Identifier.{Identifier}
use statecharts.Value.{Value}
use statecharts.Event.{Event}
use statecharts.Chart.{StateRef}
use statecharts.Interpreter.{Interpretation, RunningInvoke, MicrostepTrace}

-- The fields that executable content cannot change.
pub record Fixed : Type 0 where
  pub configuration : List StateRef
  pub history_value : List (StateRef × List StateRef)
  pub running : Bool
  pub result : Value
  pub completed : Bool
  pub last_event : Option Event
  pub initialized_data : List StateRef
  pub now : ℕ
  pub states_to_invoke : List StateRef
  pub active_invokes : List (StateRef × List RunningInvoke)
  pub invokes_by_id : List (Identifier × RunningInvoke)
  pub invoke_seq : ℕ
  pub cancelled : List Identifier
  pub macrostep_trace : Option (List MicrostepTrace)

module _ {S : Type 0} where
  abbrev pub fixed : Interpretation S → Fixed
  fixed ip = record {
    configuration = ip.configuration;
    history_value = ip.history_value;
    running = ip.running;
    result = ip.result;
    completed = ip.completed;
    last_event = ip.last_event;
    initialized_data = ip.initialized_data;
    now = ip.now;
    states_to_invoke = ip.states_to_invoke;
    active_invokes = ip.active_invokes;
    invokes_by_id = ip.invokes_by_id;
    invoke_seq = ip.invoke_seq;
    cancelled = ip.cancelled;
    macrostep_trace = ip.macrostep_trace;
  }

-- The fixed fields are the same, and both queues have only grown at their ends.
pub record Frame {S : Type 0} (ip jp : Interpretation S) : Type 0 where
  pub same : fixed ip ≡ fixed jp
  pub internal : Extends ip.internal_queue jp.internal_queue
  pub external : Extends ip.external_queue jp.external_queue

pub Extends-refl {ℓ} : {A : Type ℓ} (xs : List A) → Extends xs xs
Extends-refl xs = ([], sym (append-nil xs))

pub Extends-trans {ℓ} :
    {A : Type ℓ} (xs ys zs : List A) → Extends xs ys → Extends ys zs → Extends xs zs
Extends-trans xs ys zs (u, p) (v, q) = (u ++ v, q ∙ ap (λ l. l ++ v) p ∙ append_assoc xs u v)

module _ {S : Type 0} where
  pub Frame-refl : (ip : Interpretation S) → Frame ip ip
  Frame-refl ip = record {
    same = refl;
    internal = Extends-refl ip.internal_queue;
    external = Extends-refl ip.external_queue;
  }

  pub Frame-trans : {ip jp kp : Interpretation S} → Frame ip jp → Frame jp kp → Frame ip kp
  Frame-trans {ip} {jp} {kp} f g = record {
    same = f.same ∙ g.same;
    internal =
        Extends-trans ip.internal_queue jp.internal_queue kp.internal_queue f.internal g.internal;
    external =
        Extends-trans ip.external_queue jp.external_queue kp.external_queue f.external g.external;
  }

  -- An update of fields that are neither fixed nor queues.
  pub Frame-silent :
      {ip jp kp : Interpretation S}
      → Frame ip jp
      → fixed jp ≡ fixed kp
      → jp.internal_queue ≡ kp.internal_queue
      → jp.external_queue ≡ kp.external_queue
      → Frame ip kp
  Frame-silent {ip} {jp} {kp} f same internal external = Frame-trans f (record {
    same = same;
    internal = ([], sym internal ∙ sym (append-nil jp.internal_queue));
    external = ([], sym external ∙ sym (append-nil jp.external_queue));
  })

  -- Both branches of a test keep the frame.
  pub Frame-if :
      (b : Bool) {ip jp kp : Interpretation S}
      → Frame ip jp
      → Frame ip kp
      → Frame ip (if b then jp else kp)
  Frame-if true f g = f
  Frame-if false f g = g
