-- ===== src/Client/Tests.antt =====
-- The client of concrete requests.
use vxapigateway.Prelude.{◌≡◌, refl, [], if◌then◌else◌}
use vxapigateway.Prelude.Bytes.{Bytes, codes, beq, cut_at, trim_space}
use vxapigateway.Host.{split_host}
use vxapigateway.Client.{Request, forwarded_for, get_client_ip}

abbrev request : Bytes → Request
request chain = record {
  method = codes "GET";
  host = codes "a";
  path = codes "/";
  remote_addr = codes "10.0.0.7:90";
  headers = λ name. if beq name forwarded_for then chain else [];
}

peer : get_client_ip (request []) ≡ codes "10.0.0.7"
unfolding get_client_ip beq split_host
peer = refl

first_of_chain : get_client_ip (request (codes " 1.2.3.4, 5.6.7.8")) ≡ codes "1.2.3.4"
unfolding get_client_ip beq trim_space cut_at
first_of_chain = refl
