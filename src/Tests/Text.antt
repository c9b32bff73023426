-- ===== src/Tests/Text.antt =====
-- Strings, Ethernet addresses, the block allocator and the level of the log at concrete inputs.
use fgen.Prelude.{ℕ, ◌≡◌, refl, ◌≤◌, ◌<◌, true, some, List, [], ◌∷◌, arith, replicate, length, All}
use fgen.CString.{Bytes, codes, isspace, strcmp_eq, toupper}
use fgen.Log.{log_set_level_str, log_set_level}
use fgen.Strings.{strtrim, fgen_strtok}
use fgen.Strings.Tokens.{Token, fgen_strtok-Tokens}
use fgen.Ether.{ether_unformat_addr, ether_format_addr}
use fgen.Ether.Address.{ether_addr_is_same}
use fgen.Ether.Same.{ether_addr_is_same_iff}
use fgen.Salloc.{HeapAnswer, Salloc, salloc}
use fgen.Salloc.Regions.{Counts, Answers, Ascends, regions, salloc-Answers, regions-Ascends}

strtrim_run : strtrim (codes " \tEther( ) ") ≡ codes "Ether( )"
unfolding strtrim isspace
strtrim_run = refl

abbrev two_layers : List Bytes
two_layers = codes "Ether()" ∷ codes "IPv4()" ∷ []

fgen_strtok_run : fgen_strtok (codes "Ether() / IPv4()") (codes "/") 31 ≡ some two_layers
unfolding fgen_strtok isspace
fgen_strtok_run = refl

fgen_strtok-Tokens_example : (length two_layers ≤ 31) × All (Token (codes "/")) two_layers
fgen_strtok-Tokens_example =
    fgen_strtok-Tokens (codes "Ether() / IPv4()") (codes "/") 31 two_layers fgen_strtok_run

abbrev address : List ℕ
address = 0 ∷ 0x11 ∷ 0xa2 ∷ 0xff ∷ 4 ∷ 5 ∷ []

ether_format_addr_run : ether_format_addr address ≡ codes "00:11:A2:FF:04:05"
unfolding ether_format_addr
ether_format_addr_run = refl

three_groups_run : ether_unformat_addr (codes "0011:a2ff:0405") (replicate 6 9) ≡ (true, address)
unfolding ether_unformat_addr
three_groups_run = refl

address-octets : All (λ o. o < 256) address
address-octets =
    (omega arith, (omega arith, (omega arith, (omega arith, (omega arith, (omega arith, tt))))))

abbrev room : HeapAnswer
room = record { calloc_ok = true; realloc_ok = true; junk = 7 }

-- Six bytes of eight are used.
abbrev small_block : Salloc
small_block = record { ptr = some (replicate 8 0); size = 8; used = 6 }

small_block-Counts : Counts small_block
small_block-Counts = record { used_fits = omega arith; size_fits = omega arith }

salloc-Answers_example : Answers small_block 5 (salloc room small_block 5)
salloc-Answers_example = salloc-Answers room small_block 5 small_block-Counts (omega arith)

abbrev requests : List (HeapAnswer × ℕ)
requests = (room, 2) ∷ (room, 0) ∷ (room, 5) ∷ []

regions_run : regions requests small_block ≡ (6, 2) ∷ (8, 5) ∷ []
unfolding regions
regions_run = refl

regions-Ascends_example : Ascends 6 (regions requests small_block)
regions-Ascends_example = regions-Ascends requests small_block small_block-Counts (omega arith)

abbrev broadcast : List ℕ
broadcast = replicate 6 255

broadcast-octets : All (λ o. o < 256) broadcast
broadcast-octets =
    (omega arith, (omega arith, (omega arith, (omega arith, (omega arith, (omega arith, tt))))))

ether_addr_is_same_iff_example :
    ((ether_addr_is_same address broadcast ≡ true) → address ≡ broadcast)
    × ((address ≡ broadcast) → ether_addr_is_same address broadcast ≡ true)
ether_addr_is_same_iff_example =
    ether_addr_is_same_iff address broadcast refl refl address-octets broadcast-octets

log_set_level_str_run : log_set_level_str 7 (some (codes "last")) ≡ (true, 8)
unfolding log_set_level_str log_set_level strcmp_eq toupper
log_set_level_str_run = refl
