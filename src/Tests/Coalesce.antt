-- ===== src/Tests/Coalesce.antt =====
-- A file of coalesce rules.
use nl.Base.{Bytes, ◌≡◌, refl, List, [], ◌∷◌, codes, some}
use nl.Nl80211.Attr
use nl.Nl80211.CoalesceRule
use nl.Nl80211.PktPat
use nl.Netlink.{usage, put_all, nest, nil, ok}
use nl.Run.{done, refuse}
use nl.Scan.Request.{whole_number}
use nl.Libc.{cut, strtoul, split_on, strtok, fgets_from, fgets_all, skip_byte}
use nl.Util.HexMask.{parse_hex_mask, mask_loop, read_field}
use nl.Pattern.{pattern_text, put_pattern, put_parts}
use nl.ConfigFile.{file_lines}
use nl.Coalesce.{
  handle_coalesce_enable, delay_line, condition_line, patterns_line, pattern_loop, coalesce_line,
  coalesce_loop,
}
use nl.Coalesce.Rules.{Rule, ReadsRule, rule_lines, rules_attrs, handle_coalesce_enable-rules_attrs}
use nl.Coalesce.Sound.{AreRules, handle_coalesce_enable-AreRules}
use nl.Tests.Recorder.{Event, recorder, u32, blob, open_nest, close_nest}

program : Unit {0}
unfolding handle_coalesce_enable file_lines fgets_all fgets_from delay_line condition_line
    patterns_line pattern_loop coalesce_line coalesce_loop whole_number strtoul split_on cut strtok
    pattern_text put_pattern put_parts parse_hex_mask mask_loop read_field put_all skip_byte
program = tt

abbrev rules_file : Bytes
rules_file = codes "delay=25\ncondition=1\npatterns=6+01:02:--\n"

abbrev rules_events : List Event
rules_events =
    open_nest Attr.coalesce_rule
    ∷ open_nest 1
    ∷ u32 CoalesceRule.delay 25
    ∷ u32 CoalesceRule.condition 1
    ∷ open_nest CoalesceRule.pkt_pattern
    ∷ open_nest 1
    ∷ blob PktPat.mask (3 ∷ [])
    ∷ blob PktPat.pattern (1 ∷ 2 ∷ 0 ∷ [])
    ∷ u32 PktPat.offset 6
    ∷ close_nest
    ∷ close_nest
    ∷ close_nest
    ∷ close_nest
    ∷ []

rules_run : handle_coalesce_enable recorder [] (some rules_file) ≡ done rules_events
unfolding program
rules_run = refl

-- A comment is refused, a line that ends a rule is missing, and a pattern has no value.
comment_run : handle_coalesce_enable recorder [] (some (codes "#delay=2\n")) ≡ refuse usage
unfolding program
comment_run = refl

short_run :
    handle_coalesce_enable recorder [] (some (codes "delay=25\r\ncondition=1\n")) ≡ refuse usage
unfolding program
short_run = refl

one_rule : Rule
one_rule = record {
  delay_text = codes "25";
  delay = 25;
  condition_text = codes "1";
  condition = 1;
  patterns_text = codes "6+01:02:--";
  patterns =
      (
        codes "6+01:02:--",
        record { offset = 6; pat = 1 ∷ 2 ∷ 0 ∷ 0 ∷ 0 ∷ 0 ∷ []; mask = 3 ∷ 0 ∷ 0 ∷ []; patlen = 3 },
      )
      ∷ [];
}

one_rule-lines : file_lines rules_file ≡ rule_lines (one_rule ∷ [])
unfolding program one_rule
one_rule-lines = refl

one_rule-ReadsRule : ReadsRule one_rule
unfolding program one_rule
one_rule-ReadsRule = record {
  delay_is = refl;
  condition_is = refl;
  pieces = refl;
  patterns_are = (record { value2 = codes "01:02:--"; text_is = refl; hex_is = refl }, tt);
}

one_rule-put :
    put_all recorder (nest Attr.coalesce_rule (rules_attrs 0 0 (one_rule ∷ [])) nil) []
    ≡ ok rules_events
unfolding program one_rule
one_rule-put = refl

handle_coalesce_enable-rules_attrs_example :
    handle_coalesce_enable recorder [] (some rules_file) ≡ done rules_events
handle_coalesce_enable-rules_attrs_example =
    handle_coalesce_enable-rules_attrs recorder (one_rule ∷ []) rules_file [] rules_events
      one_rule-lines (one_rule-ReadsRule, tt) one_rule-put

handle_coalesce_enable-AreRules_example : AreRules (file_lines rules_file)
handle_coalesce_enable-AreRules_example =
    handle_coalesce_enable-AreRules recorder rules_file [] rules_events rules_run
