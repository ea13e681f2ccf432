-- ===== src/Tests/Serving.antt =====
-- A server that is set up without its translations.
use go_template_aerospike.Prelude.{pos, text, true, false, none, []}
use go_template_aerospike.Config.{HttpConfig}
use go_template_aerospike.Server.{MainService, Server}

abbrev web : HttpConfig
web = record {
  http_host = text "0.0.0.0";
  http_port = pos 8080;
  enable_recover_middleware = true;
  enable_cors_middleware = false;
  echo_debug = false;
  rest_endpoints = [];
}

abbrev no_hub : MainService
no_hub = record { order_hub = none }
