-- ===== src/Scheduler/Worker.antt =====
-- The control loop that ICMPProbe, DNSProbe, HTTPProbe, TCPProbe and MTRProbe each have as their
-- Start method (internal/probes/icmp.go, dns.go, http.go, tcp.go, mtr.go, word for word but for the
-- name of the measurement), and the loop of SpeedtestProbe (speedtest.go).
-- One step is one case of a `select`, taken by a choice; `none` says that the case is not ready.
use stabsight.Base.{Bool, true, false, Option, none, some}
use stabsight.Scheduler.Command.{Command, cmd_pause, cmd_resume, cmd_stop, cmd_other}

-- Where the goroutine of a worker stands.
pub data Phase : Type 0 where
  measuring : Phase  -- inside executeCheck, executeTrace or triggerMeasurement
  selecting : Phase  -- the main select
  acking : Phase  -- the select that sends the acknowledgement
  pausing : Phase  -- the select of pauseLoop
  returned : (with_error : Bool) → Phase

-- The goroutine of a worker with its two channels, both of capacity one.
pub record Handle : Type 0 where
  pub phase : Phase
  pub cmd_chan : Option Command
  pub ack_chan : Bool

-- The case of the select that is taken; `finish` ends a measurement.
pub data Choice : Type 0 where
  finish ctx_done receive tick send_ack : Choice

-- A worker that neither measures nor can start to without a command.
abbrev pub is_quiet : Phase → Bool
is_quiet pausing = true
is_quiet (returned _) = true
is_quiet _ = false

-- `case <-ctx.Done(): return ctx.Err()`
abbrev pub give_up : Bool → Handle → Option Handle
give_up true h = some (record h { phase = returned true })
give_up false h = none

-- `case cmd := <-cmdChan` of the main select
abbrev pub receive_active : Option Command → Handle → Option Handle
receive_active none h = none
receive_active (some cmd_pause) h = some (record h { phase = acking; cmd_chan = none })
receive_active (some cmd_resume) h = some (record h { cmd_chan = none })
receive_active (some cmd_stop) h = some (record h { phase = returned false; cmd_chan = none })
receive_active (some (cmd_other _)) h = some (record h { cmd_chan = none })

-- `case resumeCmd := <-cmdChan` of pauseLoop
abbrev pub receive_paused : Option Command → Handle → Option Handle
receive_paused none h = none
receive_paused (some cmd_resume) h = some (record h { phase = selecting; cmd_chan = none })
receive_paused (some cmd_stop) h = some (record h { phase = returned false; cmd_chan = none })
receive_paused (some cmd_pause) h = some (record h { cmd_chan = none })
receive_paused (some (cmd_other _)) h = some (record h { cmd_chan = none })

-- `case ackChan <- struct{}{}`
abbrev pub acknowledge : Bool → Handle → Option Handle
acknowledge true h = none
acknowledge false h = some (record h { phase = pausing; ack_chan = true })

abbrev light_dispatch : Phase → Choice → Bool → Handle → Option Handle
light_dispatch measuring finish cancelled h = some (record h { phase = selecting })
light_dispatch selecting ctx_done cancelled h = give_up cancelled h
light_dispatch selecting receive cancelled h = receive_active h.cmd_chan h
light_dispatch selecting tick cancelled h = some (record h { phase = measuring })
light_dispatch acking ctx_done cancelled h = give_up cancelled h
light_dispatch acking send_ack cancelled h = acknowledge h.ack_chan h
light_dispatch pausing ctx_done cancelled h = give_up cancelled h
light_dispatch pausing receive cancelled h = receive_paused h.cmd_chan h
light_dispatch _ _ cancelled h = none

-- One step of the Start loop of a light probe; `cancelled` is whether its context is done.
unfoldable pub light_start : Bool → Choice → Handle → Option Handle
light_start cancelled c h = light_dispatch h.phase c cancelled h

-- `case cmd := <-cmdChan` of the speedtest: only CmdStop ends the loop.
abbrev receive_speedtest : Option Command → Handle → Option Handle
receive_speedtest none h = none
receive_speedtest (some cmd_stop) h = some (record h { phase = returned false; cmd_chan = none })
receive_speedtest (some _) h = some (record h { cmd_chan = none })

abbrev speedtest_dispatch : Phase → Choice → Bool → Handle → Option Handle
speedtest_dispatch measuring finish cancelled h = some (record h { phase = selecting })
speedtest_dispatch selecting ctx_done cancelled h = give_up cancelled h
speedtest_dispatch selecting receive cancelled h = receive_speedtest h.cmd_chan h
speedtest_dispatch selecting tick cancelled h = some (record h { phase = measuring })
speedtest_dispatch _ _ cancelled h = none

-- One step of the Start loop of SpeedtestProbe.
unfoldable pub speedtest_start : Bool → Choice → Handle → Option Handle
speedtest_start cancelled c h = speedtest_dispatch h.phase c cancelled h
