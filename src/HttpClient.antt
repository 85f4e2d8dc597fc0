-- ===== src/HttpClient.antt =====
-- The data of http_client/http_client.cpp, http_client/http_request.h and http_client/http_response.h: a
-- request, a response, and the settings of the client.
pub mod Closing
pub mod Curl
pub mod Methods
pub mod Outcome
pub mod Sending
pub mod Stream
pub mod Upload
mod Tests
use cpp_done.Prelude.{
  ℕ, Bool, true, false, not, ◌&&◌, Option, none, some, List, [], ◌∷◌, ◌++◌, ltb, leb, if◌then◌else◌,
  length, fold, map,
}
use cpp_done.Std.Text.{Bytes, codes, is_empty, c_str}

pub data RequestType : Type 0 where
  get post put delete unknown : RequestType

pub record HttpRequest : Type 0 where
  pub request_type : RequestType
  pub url : Bytes
  pub request_data : Bytes
  pub headers : List Bytes
  pub upload_file_path : Bytes
  -- is `callback_` not empty?
  pub callback : Bool
  pub tag : Bytes
  -- the pointer `pUserData_`
  pub user_data : Option ℕ

unfoldable pub new_request : HttpRequest
new_request = record {
  request_type = unknown;
  url = [];
  request_data = [];
  headers = [];
  upload_file_path = [];
  callback = false;
  tag = [];
  user_data = none;
}

unfoldable pub set_request_type : RequestType → HttpRequest → HttpRequest
set_request_type type r = record r { request_type = type }

unfoldable pub set_url : Bytes → HttpRequest → HttpRequest
set_url url r = record r { url = url }

unfoldable pub set_request_data : Bytes → HttpRequest → HttpRequest
set_request_data bytes r = record r { request_data = bytes }

unfoldable pub set_upload_file_path : Bytes → HttpRequest → HttpRequest
set_upload_file_path path r = record r { upload_file_path = path }

unfoldable pub set_tag : Bytes → HttpRequest → HttpRequest
set_tag tag r = record r { tag = tag }

unfoldable pub set_user_data : Option ℕ → HttpRequest → HttpRequest
set_user_data pointer r = record r { user_data = pointer }

-- `cb` tells whether the function is not empty
unfoldable pub set_callback : Bool → HttpRequest → HttpRequest
set_callback cb r = record r { callback = cb }

unfoldable pub set_headers : List Bytes → HttpRequest → HttpRequest
set_headers headers r = record r { headers = headers }

-- A response code of -1 is `none`.
pub record HttpResponse : Type 0 where
  pub succeed : Bool
  pub response_data : Bytes
  pub response_header : Bytes
  pub response_code : Option ℕ
  pub response_data_string : Bytes
  pub error_buffer : Bytes

unfoldable pub new_response : HttpResponse
new_response = record {
  succeed = false;
  response_data = [];
  response_header = [];
  response_code = none;
  response_data_string = [];
  error_buffer = [];
}

unfoldable pub set_succeed : Bool → HttpResponse → HttpResponse
set_succeed is_succeed r = record r { succeed = is_succeed }

unfoldable pub set_response_data : Bytes → HttpResponse → HttpResponse
set_response_data received r = record r { response_data = received }

unfoldable pub set_response_header : Bytes → HttpResponse → HttpResponse
set_response_header header r = record r { response_header = header }

unfoldable pub set_response_code : Option ℕ → HttpResponse → HttpResponse
set_response_code code r = record r { response_code = code }

unfoldable pub set_response_data_string : Bytes → HttpResponse → HttpResponse
set_response_data_string str r = record r { response_data_string = str }

unfoldable pub set_error_buffer : Bytes → HttpResponse → HttpResponse
set_error_buffer err_buf r = record r { error_buffer = err_buf }

unfoldable pub response_data_as_string : HttpResponse → Bytes
response_data_as_string r =
    if is_empty r.response_data then codes "receive data is empty!" else r.response_data

-- An `int` is its 32-bit pattern.
pub record HttpClient : Type 0 where
  pub cookie_filename : Bytes
  pub ssl_ca_filename : Bytes
  pub timeout_for_connect : ℕ
  pub timeout_for_read : ℕ

unfoldable pub new : HttpClient
new = record {
  cookie_filename = [];
  ssl_ca_filename = [];
  timeout_for_connect = 30;
  timeout_for_read = 60;
}

unfoldable pub enable_cookies : Bytes → HttpClient → HttpClient
enable_cookies cookie_file c =
    if not (is_empty cookie_file)
    then record c { cookie_filename = cookie_file }
    else record c { cookie_filename = codes "cookieFile.txt" }

unfoldable pub set_ssl_verification : Bytes → HttpClient → HttpClient
set_ssl_verification ca_file c = record c { ssl_ca_filename = ca_file }

unfoldable pub set_timeout_for_connect : ℕ → HttpClient → HttpClient
set_timeout_for_connect value c = record c { timeout_for_connect = value }

unfoldable pub set_timeout_for_read : ℕ → HttpClient → HttpClient
set_timeout_for_read value c = record c { timeout_for_read = value }
