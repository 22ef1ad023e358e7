-- ===== src/Loop/Serve.antt =====
-- From HTTP_PAYLOAD to the network, through the loop of src/main.rs.
use mathlib.Core.Path.{subst}
use qore_os.Base.{ℕ, ◌+◌, ◌≤◌, ◌≡◌, refl, List, some, length}
use qore_os.E1000.{E1000, Kernel}
use qore_os.E1000.Poll.{done, map_outcome, received}
use qore_os.E1000.Poll.Get.{Answered, GetWaits, poll_get}
use qore_os.Net.Craft.{Delivers}
use qore_os.Net.Answers.{get_answer, get_answer_frame}
use qore_os.Net.Page.{IsPage, page_text}
use qore_os.Compositor.Screen.{Screen}
use qore_os.Syscall.{kernel_of, back}
use qore_os.Loop.{Session, Surroundings, poll_card, Runs}
use qore_os.Loop.Run.{IsDisplay, IsRunning, Runs-IsRunning}

-- Where the loop begins with the text `text` in HTTP_PAYLOAD, on a screen with room for the desktop: after
-- any run of rounds and interrupts, in any order, where a whole request for the page waits on the receive
-- ring, the next poll answers it by one frame on the transmit ring, which a receiver accepts and whose body
-- is a page of status 200 with the whole of `text` and with its length as Content-Length, and gives the
-- packet's descriptor back. The frame is to have at most 65535 bytes.
pub Runs-poll_card :
    (env : Surroundings) (text : List ℕ) (s : Screen) (x y : Session) (nic : E1000)
    → IsDisplay s
    → IsRunning (some text) s x
    → Runs env x y
    → y.state.system.net_card ≡ some nic
    → GetWaits env.hw (kernel_of y.state.system nic)
    → (let k = kernel_of y.state.system nic in length (get_answer (received k) k).body ≤ 65481)
    → let k = kernel_of y.state.system nic in
      (k' : Kernel) × (poll_card env.hw y.state.system ≡ done (back y.state.system k'))
      × Answered env.hw
          (get_answer_frame (received k) k)
          (54 + length (get_answer (received k) k).body)
          k
          k'
      × Delivers (get_answer_frame (received k) k) (get_answer (received k) k)
      × IsPage (get_answer (received k) k).body text
unfolding poll_card map_outcome
Runs-poll_card env text s x y nic v start runs card waits size =
    let k = kernel_of y.state.system nic in
    let kept = (Runs-IsRunning env x y v runs start).serving.payload in
    let r = poll_get env.hw k waits size in
    (
      r.0,
      rw (card, r.1) refl,
      r.2,
      r.3,
      subst (λ t. IsPage (get_answer (received k) k).body (page_text t)) kept r.4,
    )
