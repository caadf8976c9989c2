-- ===== src/Protocol/Rules.antt =====
-- racelink/protocol/rules.py over the table of racelink/racelink_proto_auto.py: which reply an
-- opcode asks for.
use gatecontrol_lora.Prelude.{
  ℕ, List, Option, Text, [], codes, if◌then◌else◌, negsuc, none, pos, some, ℤ, ◌%◌, ◌==◌, ◌∷◌,
}

pub record PacketRule : Type 0 where
  pub opcode7 : ℕ
  pub req_dir : ℕ
  pub rule_policy : ℕ
  pub rsp_opcode7 : ℕ
  pub req_len : ℕ
  pub rsp_len : ℕ
  pub rule_name : Text

abbrev rule : ℕ → ℕ → ℕ → ℕ → ℕ → ℕ → Text → PacketRule
rule opcode dir policy rsp req_len rsp_len name = record {
  opcode7 = opcode;
  req_dir = dir;
  rule_policy = policy;
  rsp_opcode7 = rsp;
  req_len = req_len;
  rsp_len = rsp_len;
  rule_name = name;
}

abbrev pub rules : List PacketRule
rules =
    rule 1 0 2 1 2 9 (codes "DEVICES/IDENTIFY")
    ∷ rule 2 0 1 126 1 3 (codes "SET_GROUP")
    ∷ rule 3 0 2 3 2 8 (codes "STATUS")
    ∷ rule 4 0 0 0 4 0 (codes "PRESET")
    ∷ rule 8 0 0 0 0 0 (codes "CONTROL")
    ∷ rule 5 0 1 126 5 3 (codes "CONFIG")
    ∷ rule 6 0 0 0 0 0 (codes "SYNC")
    ∷ rule 9 0 0 0 0 0 (codes "OFFSET")
    ∷ rule 7 0 1 126 9 3 (codes "STREAM_M2N")
    ∷ []

-- The table as a dictionary; its opcodes are distinct.
unfoldable pub lookup_rule : ℕ → List PacketRule → Option PacketRule
lookup_rule opcode [] = none
lookup_rule opcode (r ∷ rs) = if r.opcode7 == opcode then some r else lookup_rule opcode rs

unfoldable pub find_rule : ℕ → Option PacketRule
unfolding lookup_rule
find_rule opcode = lookup_rule (opcode % 128) rules

abbrev pub resp_none : ℕ
resp_none = 0

abbrev pub policy_of : Option PacketRule → ℕ
policy_of none = resp_none
policy_of (some r) = r.rule_policy

abbrev pub reply_opcode_of : Option PacketRule → ℤ
reply_opcode_of none = negsuc 0
reply_opcode_of (some r) = pos (r.rsp_opcode7 % 128)

abbrev pub direction_of : Option PacketRule → ℕ
direction_of none = 0
direction_of (some r) = r.req_dir

unfoldable pub response_policy : ℕ → ℕ
unfolding find_rule
response_policy opcode = policy_of (find_rule opcode)

unfoldable pub response_opcode : ℕ → ℤ
unfolding find_rule
response_opcode opcode = reply_opcode_of (find_rule opcode)

unfoldable pub request_direction : ℕ → ℕ
unfolding find_rule
request_direction opcode = direction_of (find_rule opcode)
