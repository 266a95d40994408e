-- ===== src/Fence/Steps.antt =====
-- The histories of one fence: the calls of its methods, and the callbacks that its environment
-- makes when it may.
use astroix.Base.{ℕ, ◌≡◌, true, Option, some, String, List, get_elem?}
use astroix.DrainReport.{WriteOutcome}
use astroix.Fence.{
  EditFence, AcceptedEdit, in_flight, create_edit_fence, submit, fence, settle, on_deadline, resume,
}

pub data Event : Type 0 where
  submits : String → Event
  fences : Option (List String) → Event
  settles : ℕ → Option WriteOutcome → Event
  ticks : Event
  resumes : Event

unfoldable pub step : EditFence → Event → EditFence
step f (submits key) = (submit key f).0
step f (fences pending) = (fence pending f).0
step f (settles i raw) = settle i raw f
step f ticks = on_deadline f
step f resumes = (resume f).0

-- A method may be called at any time, an edit settles once it is in flight, and the timer fires
-- while it is pending.
abbrev pub Enabled : EditFence → Event → Type 0
Enabled f (settles i raw) =
    (op : AcceptedEdit) × (get_elem? f.accepted i ≡ some op) × (op.phase ≡ in_flight)
Enabled f ticks = f.armed ≡ true
Enabled f _ = Unit {0}

pub data Reach : EditFence → Type 0 where
  created : Reach create_edit_fence
  next : {f : EditFence} → Reach f → (e : Event) → Enabled f e → Reach (step f e)
