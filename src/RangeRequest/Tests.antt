-- ===== src/RangeRequest/Tests.antt =====
-- The request for bytes 3 to 9 of a file.
use wind_cloud_v.Shared.{◌≡◌, refl, some, arith}
use wind_cloud_v.Shared.Int.{pos}
use wind_cloud_v.Shared.Decimal.{print_ℤ, print_ℕ}
use wind_cloud_v.Shared.Text.{codes, has_byte, snprintf}
use wind_cloud_v.RangeRequest.{
  RangeRequest, build_gets_range_ticket_request, parse_gets_range_ticket_request,
}
use wind_cloud_v.RangeRequest.Laws.{IsField, IsRequest, parse-build_gets_range_ticket_request}

abbrev request : RangeRequest
request = record {
  file_name = codes "a.txt";
  range_start = pos 3;
  range_end = pos 9;
  source_ip = codes "10.0.0.1";
  source_port = codes "8080";
}

request-IsRequest : IsRequest request
unfolding IsField has_byte
request-IsRequest = record {
  name_field = (refl, refl);
  ip_field = (refl, refl);
  port_field = (refl, refl);
  ip_fits = omega arith;
  port_fits = omega arith;
  starts = refl;
  ends = refl;
}

built : build_gets_range_ticket_request request ≡ some (codes "a.txt|3|9|10.0.0.1|8080")
unfolding build_gets_range_ticket_request print_ℤ print_ℕ snprintf
built = refl

parse-build_gets_range_ticket_request_example :
    parse_gets_range_ticket_request (codes "a.txt|3|9|10.0.0.1|8080") ≡ some request
parse-build_gets_range_ticket_request_example =
    parse-build_gets_range_ticket_request request (codes "a.txt|3|9|10.0.0.1|8080")
      request-IsRequest built
