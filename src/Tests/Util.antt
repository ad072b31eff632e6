-- ===== src/Tests/Util.antt =====
-- The readers of addresses, of bytes and of channels.
use nl.Base.{true, false, ◌≡◌, refl, Bytes, [], ◌∷◌, none, some, codes, replicate, arith}
use nl.Base.Int.{pos}
use nl.Libc.{cut, strtoul}
use nl.Util.Mac.{mac_addr_a2n, mac_addr_n2a}
use nl.Util.Mac.Laws.{fields, all_six, mac_addr_a2n-fields, mac_addr_a2n-n2a}
use nl.Util.Hex.{hex2bin}
use nl.Util.HexMask.{parse_hex_mask, mask_loop, read_field, parsed, overrun}
use nl.Util.HexMask.Fields.{split, fields as mask_fields}
use nl.Util.HexMask.Result.{Outcome, parse_hex_mask-fields, parse_hex_mask-overrun}
use nl.Util.HexMask.Bounds.{any_bad}
use nl.Util.Channel.{ghz5, channel_to_frequency, frequency_to_channel, get_cf1, width_80, width_160}
use nl.Util.Channel.Laws.{frequency_to_channel-channel_to_frequency}
use nl.Util.Channel.Center.{center_80, center_160, get_cf1_centers}

abbrev zeros : Bytes
zeros = replicate 6 0

abbrev address : Bytes
address = 2 ∷ 0 ∷ 10 ∷ 255 ∷ 1 ∷ 0 ∷ []

a2n_run : mac_addr_a2n zeros (codes "02:00:0a:ff:1:0") ≡ some address
unfolding mac_addr_a2n
a2n_run = refl

a2n_short : mac_addr_a2n zeros (codes "02:00:0a:ff:1") ≡ none
unfolding mac_addr_a2n
a2n_short = refl

n2a_run : mac_addr_n2a address ≡ some (codes "02:00:0a:ff:01:00")
unfolding mac_addr_n2a
n2a_run = refl

mac_addr_a2n-fields_example :
    mac_addr_a2n zeros (codes "02:00:0a:ff:1:0") ≡ all_six (fields 6 (codes "02:00:0a:ff:1:0"))
mac_addr_a2n-fields_example = mac_addr_a2n-fields zeros (codes "02:00:0a:ff:1:0") (omega arith)

mac_addr_a2n-n2a_example :
    (text : Bytes) × (mac_addr_n2a address ≡ some text) × (mac_addr_a2n zeros text ≡ some address)
mac_addr_a2n-n2a_example = mac_addr_a2n-n2a address zeros (omega arith) (omega arith) (omega arith)

hex2bin_run : hex2bin (codes "0aFf") ≡ some (10 ∷ 255 ∷ [])
unfolding hex2bin
hex2bin_run = refl

hex2bin_odd : hex2bin (codes "0aF") ≡ none
unfolding hex2bin
hex2bin_odd = refl

hex_mask_run :
    parse_hex_mask true (codes "01:-:fF:xx")
    ≡ parsed (1 ∷ 0 ∷ 255 ∷ 0 ∷ 0 ∷ 0 ∷ 0 ∷ []) (5 ∷ 0 ∷ 0 ∷ []) 4
unfolding parse_hex_mask mask_loop cut read_field strtoul
hex_mask_run = refl

parse_hex_mask-fields_example :
    Outcome
      (any_bad (mask_fields true (split (codes "01:-:fF"))))
      true
      (codes "01:-:fF")
      (mask_fields true (split (codes "01:-:fF")))
      (parse_hex_mask true (codes "01:-:fF"))
parse_hex_mask-fields_example =
    parse_hex_mask-fields true (codes "01:-:fF") (unfold split in omega arith)

parse_hex_mask-overrun_example : parse_hex_mask false (codes "::::") ≡ overrun
unfolding split read_field strtoul
parse_hex_mask-overrun_example = parse_hex_mask-overrun false (codes "::::") refl (omega arith)

frequency_to_channel-channel_to_frequency_example :
    frequency_to_channel (pos (channel_to_frequency 184 ghz5)) ≡ pos 184
frequency_to_channel-channel_to_frequency_example =
    frequency_to_channel-channel_to_frequency 184 ghz5 (omega arith)

get_cf1_centers_example :
    (get_cf1 width_80 0 6180 ≡ center_80 6180) × (get_cf1 width_160 0 6180 ≡ center_160 6180)
get_cf1_centers_example = get_cf1_centers 6180 0
