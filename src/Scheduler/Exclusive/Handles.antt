-- ===== src/Scheduler/Exclusive/Handles.antt =====
-- What a channel protocol step does to one handle of a worker that is not exclusive.
use stabsight.Base.{◌≡◌, Bool, true, false, not, ◌&&◌, Option, none, some, if◌then◌else◌, arith}
use stabsight.Scheduler.Command.{Command, cmd_pause, cmd_resume, is_resume}
use stabsight.Scheduler.Worker.{
  Handle, Choice, Phase, measuring, selecting, pausing, returned, is_quiet, light_start,
}

-- A resume is pending only at a quiet worker that owes no acknowledgement, and an acknowledgement
-- only at a quiet worker.
abbrev pub is_free : Handle → Bool
is_free h =
    if is_quiet h.phase
    then not (is_resume h.cmd_chan && h.ack_chan)
    else not (is_resume h.cmd_chan) && not h.ack_chan

-- The worker is quiet, and stays so: its acknowledgement is taken and no resume is pending.
abbrev pub is_held : Handle → Bool
is_held h = is_quiet h.phase && (not h.ack_chan && not (is_resume h.cmd_chan))

abbrev pub released_by : Phase → Option Command → Bool
released_by pausing (some cmd_resume) = true
released_by (returned _) (some cmd_resume) = true
released_by (returned _) none = true
released_by measuring none = true
released_by selecting none = true
released_by _ _ = false

-- The worker runs, has returned, or has its resume pending.
abbrev pub is_released : Handle → Bool
is_released h = not h.ack_chan && released_by h.phase h.cmd_chan

-- The steps of a light probe keep each of the three.
module _ (cancelled : Bool) (c : Choice) (h h' : Handle)
    (e : light_start cancelled c h ≡ some h') where
  pub light_start-is_free : is_free h ≡ true → is_free h' ≡ true
  unfolding light_start
  light_start-is_free f = ground arith

  pub light_start-is_held : is_held h ≡ true → is_held h' ≡ true
  unfolding light_start
  light_start-is_held f = ground arith

  pub light_start-is_released : is_released h ≡ true → is_released h' ≡ true
  unfolding light_start
  light_start-is_released f = ground arith

-- A pause sent to any handle, an acknowledgement taken, and a resume sent to a held handle.
pub send_pause-is_free :
    (h : Handle) → is_free h ≡ true → is_free (record h { cmd_chan = some cmd_pause }) ≡ true
send_pause-is_free h f = ground arith

pub receive-is_free :
    (h : Handle) → is_free h ≡ true → is_free (record h { ack_chan = false }) ≡ true
receive-is_free h f = ground arith

pub receive-is_held :
    (h : Handle)
    → is_free h ≡ true
    → h.ack_chan ≡ true
    → is_held (record h { ack_chan = false }) ≡ true
receive-is_held h f a = ground arith

pub send_resume-is_free :
    (h : Handle) → is_held h ≡ true → is_free (record h { cmd_chan = some cmd_resume }) ≡ true
send_resume-is_free h f = ground arith

pub send_resume-is_released :
    (h : Handle) → is_held h ≡ true → is_released (record h { cmd_chan = some cmd_resume }) ≡ true
send_resume-is_released h f = ground arith
