-- ===== src/Error.antt =====
-- Utilities/Error.hpp and Modules/Error/Errno/ErrorModule.cpp: the error codes of every call, and
-- the translation of an errno.
use abstraction_layer.Prelude.{Bool, true, false}

-- `ErrorType`.
pub data ErrorType : Type 0 where
  success failure not_implemented no_memory timeout not_supported : ErrorType
  prerequisites_not_met invalid_parameter crc_mismatch not_available : ErrorType
  file_not_found file_exists end_of_file no_data limit_reached negative : ErrorType

-- `ErrorType::Success == error`.
abbrev pub is_success : ErrorType → Bool
is_success success = true
is_success _ = false

pub ErrorType-discrete : Discrete ErrorType
ErrorType-discrete = hlevel

-- The errors that `fromPlatformError` names; `other` is any other number.
pub data PlatformError : Type 0 where
  minus_one zero enomem etime etimedout enosys eacces eperm edeadlk epipe econnreset : PlatformError
  einval enotsock ebadf enametoolong enoent eexist enodata esrch eagain : PlatformError
  eoverflow eaddrinuse other : PlatformError

-- Without the warning that is logged for any other number.
pub from_platform_error : PlatformError → ErrorType
from_platform_error minus_one = failure
from_platform_error zero = success
from_platform_error enomem = no_memory
from_platform_error etime = timeout
from_platform_error etimedout = timeout
from_platform_error enosys = not_supported
from_platform_error eacces = prerequisites_not_met
from_platform_error eperm = prerequisites_not_met
from_platform_error edeadlk = prerequisites_not_met
from_platform_error epipe = prerequisites_not_met
from_platform_error econnreset = prerequisites_not_met
from_platform_error einval = invalid_parameter
from_platform_error enotsock = invalid_parameter
from_platform_error ebadf = invalid_parameter
from_platform_error enametoolong = invalid_parameter
from_platform_error enoent = file_not_found
from_platform_error eexist = file_exists
from_platform_error enodata = no_data
from_platform_error esrch = no_data
from_platform_error eagain = limit_reached
from_platform_error eoverflow = limit_reached
from_platform_error eaddrinuse = limit_reached
from_platform_error other = failure
