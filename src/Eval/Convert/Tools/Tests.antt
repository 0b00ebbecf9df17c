-- ===== src/Eval/Convert/Tools/Tests.antt =====
-- A tool without a description, whose schema is a number.
use agent_rl.Common.{ℕ, ◌≡◌, refl, true, none, some}
use agent_rl.Eval.Convert.Tools.{ChatTool, chat_to_response, response_to_chat}
use agent_rl.Eval.Convert.Tools.Agree.{written_out}

abbrev search_tool : ChatTool ℕ
search_tool = record { name = "search"; description = none; parameters = 7; strict = some true }

there_and_back : response_to_chat (chat_to_response search_tool) ≡ written_out search_tool
unfolding chat_to_response response_to_chat
there_and_back = refl
