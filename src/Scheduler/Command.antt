-- ===== src/Scheduler/Command.antt =====
-- internal/scheduler/command.go: the control signals and their names.
use stabsight.Base.{ℤ, Bool, true, false, Option, none, some, Text, codes}

-- Command is a Go int: `cmd_other` stands for a value that is none of the three constants.
pub data Command : Type 0 where
  cmd_pause cmd_resume cmd_stop : Command
  cmd_other : ℤ → Command

-- Command.String
unfoldable pub to_string : Command → Text
to_string cmd_pause = codes "CmdPause"
to_string cmd_resume = codes "CmdResume"
to_string cmd_stop = codes "CmdStop"
to_string (cmd_other _) = codes "CmdUnknown"

-- What a command channel holds.
abbrev pub is_resume : Option Command → Bool
is_resume (some cmd_resume) = true
is_resume _ = false

abbrev pub is_empty : Option Command → Bool
is_empty none = true
is_empty (some _) = false
