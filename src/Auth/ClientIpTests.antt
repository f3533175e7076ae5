-- ===== src/Auth/ClientIpTests.antt =====
-- The client's address at concrete headers.
use restream_plus.Auth.ClientIp.{
  split_on, hops_of, up_to, count, is_valid_ip, ip_in_networks, strip_port, client_at, walk,
  from_header, extract_client_ip, comma,
}
use restream_plus.Auth.ClientIp.Hops.{
  IsClient, extract_client_ip-IsClient, extract_client_ip_unspoofed,
}
use restream_plus.Base.Texts.{Text, codes, starts_with, same_text_iff, is_empty}
use restream_plus.Base.{
  List, [], ◌∷◌, ◌++◌, refl, ◌≡◌, Option, none, some, Bool, if◌then◌else◌, sym, ◌∙◌, all, eqb, ◌||◌,
  leb, ◌&&◌,
}

-- Digits and dots make an address, and a network is a prefix.
abbrev digits_and_dots : Text → Option Text
digits_and_dots s =
    if is_empty s
    then none
    else if all (λ c. eqb c 46 || (leb 48 c && leb c 57)) s
    then some s
    else none

abbrev under : Text → Text → Bool
under addr network = starts_with network addr

abbrev proxies : List Text
proxies = codes "10." ∷ []

abbrev peer : Text
peer = codes "10.0.0.1"

abbrev header : Text
header = codes "junk, 203.0.113.9:443 , ,10.0.0.7"

behind : extract_client_ip digits_and_dots under peer header proxies ≡ codes "203.0.113.9"
unfolding extract_client_ip ip_in_networks from_header walk hops_of split_on client_at strip_port
    is_valid_ip up_to count
behind = refl

direct : extract_client_ip digits_and_dots under (codes "9.9.9.9") header proxies ≡ codes "9.9.9.9"
unfolding extract_client_ip ip_in_networks from_header walk hops_of split_on client_at strip_port
    is_valid_ip up_to count
direct = refl

only : extract_client_ip digits_and_dots under peer (codes "10.0.0.2,[10.0.0.3]:80") proxies ≡ peer
unfolding extract_client_ip ip_in_networks from_header walk hops_of split_on client_at strip_port
    is_valid_ip up_to count
only = refl

extract_client_ip-IsClient_example :
    IsClient digits_and_dots under proxies peer header
      (extract_client_ip digits_and_dots under peer header proxies)
extract_client_ip-IsClient_example =
    extract_client_ip-IsClient digits_and_dots under proxies peer header

header_differs : ¬ (extract_client_ip digits_and_dots under peer header proxies ≡ peer)
header_differs h = cc ((same_text_iff (codes "203.0.113.9") peer).1 (sym behind ∙ h))

extract_client_ip_unspoofed_example :
    extract_client_ip digits_and_dots under peer (codes "1.1.1.1" ++ comma ∷ header) proxies
    ≡ extract_client_ip digits_and_dots under peer header proxies
extract_client_ip_unspoofed_example =
    extract_client_ip_unspoofed digits_and_dots under proxies peer header (codes "1.1.1.1")
      header_differs
