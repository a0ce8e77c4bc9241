-- ===== src/Networking/Types.antt =====
-- networking/include/types.hpp: the result codes of the publisher.
use direct_link.Base.{String}

pub data Result : Type 0 where
  success error_invalid_parameter error_pipeline_failed : Result
  error_connection_failed error_auth_failed error_not_initialized : Result

pub Result-discrete : Discrete Result
Result-discrete = hlevel

-- `default: return "Unknown error"` of the source serves values outside the enumeration only.
unfoldable pub result_to_string : Result → String
result_to_string success = "Success"
result_to_string error_invalid_parameter = "Invalid parameter"
result_to_string error_pipeline_failed = "Pipeline failed"
result_to_string error_connection_failed = "Connection failed"
result_to_string error_auth_failed = "Authentication failed"
result_to_string error_not_initialized = "Not initialized"
